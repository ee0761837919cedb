-- ===== src/Sockets/Delivery.antt =====
-- What a broadcast puts into the channels of the clients.
