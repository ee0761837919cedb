-- ===== src/HostGroups/Tests.antt =====
-- Groups of three hosts in the tables in memory.
use server_monitor.Base.{◌≡◌, refl, true, some, [], ◌∷◌, length}
use server_monitor.Base.Text.{trim_space}
use server_monitor.HostGroups.{HostGroup, HostGroupRequest, Tables, Response, has_group}
use server_monitor.HostGroups.Consistent.{IsConsistent}
use server_monitor.HostGroups.Steps.{create_host_group, delete_host_group}
use server_monitor.HostGroups.Routes.{handle}
use server_monitor.HostGroups.Routes.Handled.{handle-IsConsistent}
use server_monitor.HostGroups.Memory.{memory, memory_laws}

abbrev databases : HostGroup
databases = record { id = 1; name = "databases"; description = ""; created_at = 0; updated_at = 0 }

abbrev before : Tables
before = record {
  groups = databases ∷ [];
  members = record { id = 1; group_id = 1; instance = "db:9100"; created_at = 0 } ∷ [];
}

before-IsConsistent : IsConsistent before
unfolding has_group
before-IsConsistent = record {
  groups_valid = (((refl, refl), refl), tt);
  members_valid = (((refl, refl), refl), tt);
}

abbrev web_request : HostGroupRequest
web_request = record {
  name = " web ";
  description = "the web servers";
  instances = "web1:9100" ∷ " web2:9100 " ∷ "web1:9100" ∷ [];
}

abbrev created_response : Response
created_response = (handle (λ t. "") memory true (create_host_group (some web_request)) before).0

abbrev after : Tables
after = (handle (λ t. "") memory true (create_host_group (some web_request)) before).1

two_members : length after.members ≡ 3
unfolding handle trim_space has_group
two_members = refl

handle-IsConsistent_example :
    IsConsistent (handle (λ t. "") memory true (delete_host_group "1") before).1
unfolding memory_laws
handle-IsConsistent_example =
    handle-IsConsistent (λ t. "") memory true memory_laws (delete_host_group "1") before
      before-IsConsistent
