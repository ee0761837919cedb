-- ===== src/Rules/Subquery.antt =====
-- The search for subqueries misses none.
use Prim.Native.Char.{Char, code}
use server_monitor.Base.{
  ℕ, zero, suc, ◌<◌, ◌≤◌, String, ◌≡◌, refl, sym, ◌∙◌, ap, true, false, Option, none, some, arith,
  eqb, Bool-cases, Option-cases, inl, inr,
}
use server_monitor.Base.Text.{append}
use server_monitor.Rules.{
  break_at, has_char, chars, subquery_turn, close_of, subquery_loop, contains_promql_subquery,
}

-- The first place of a character in a text that is put together.
abbrev in_front :
    Option (String × String) → String → Option (String × String) → String → Option (String × String)
in_front (some (p, q)) t later a = some (p, append q t)
in_front none t none a = none
in_front none t (some (p, q)) a = some (append a p, q)

abbrev cons_first : Char → Option (String × String) → Option (String × String)
cons_first c none = none
cons_first c (some (p, q)) = some (String.◌∷◌ c p, q)

in_front-cons :
    (c : Char) (o l : Option (String × String)) (t a : String)
    → cons_first c (in_front o t l a) ≡ in_front (cons_first c o) t l (String.◌∷◌ c a)
in_front-cons c (some (p, q)) l t a = refl
in_front-cons c none none t a = refl
in_front-cons c none (some (p, q)) t a = refl

break_at-cons :
    (x : ℕ) (c : Char) (s : String)
    → eqb (code c) x ≡ false
    → break_at x (String.◌∷◌ c s) ≡ cons_first c (break_at x s)
unfolding break_at
break_at-cons x c s n = elim (Option-cases (break_at x s)) [
  | inl e ↦ rw (n, e) refl
  | inr ((p, q), e) ↦ rw (n, e) refl
]

empty_front : (o : Option (String × String)) → o ≡ in_front none "" o ""
empty_front none = refl
empty_front (some (p, q)) = refl

break_at-append :
    (x : ℕ) (a t : String) → break_at x (append a t) ≡ in_front (break_at x a) t (break_at x t) a
unfolding break_at
break_at-append x String.[] t = front (break_at x t)
  where
    front : (o : Option (String × String)) → o ≡ in_front none t o ""
    front none = refl
    front (some (p, q)) = refl
break_at-append x (String.◌∷◌ c a) t = elim (Bool-cases (eqb (code c) x)) [
  | inl y ↦ rw y refl
  | inr n ↦
      break_at-cons x c (append a t) n
      ∙ ap (cons_first c) (break_at-append x a t)
      ∙ in_front-cons c (break_at x a) (break_at x t) t a
      ∙ ap (λ o. in_front o t (break_at x t) (String.◌∷◌ c a)) (sym (break_at-cons x c a n))
]

break_at-shorter : (x : ℕ) (a p q : String) → break_at x a ≡ some (p, q) → chars q < chars a
unfolding break_at
break_at-shorter x String.[] p q h = cc
break_at-shorter x (String.◌∷◌ c a) p q h = elim (Bool-cases (eqb (code c) x)) [
  | inl y ↦
      let e : Path (Option (String × String)) (some ("", a)) (some (p, q)) =
        rw (break_at, y) at h in
      let same : a ≡ q = cc in rw same (omega arith)
  | inr n ↦ elim (Option-cases (break_at x a)) [
    | inl e ↦ absurd (ground arith)
    | inr ((r, s), e) ↦
        let f : Path (Option (String × String)) (some (String.◌∷◌ c r, s)) (some (p, q)) =
          rw (break_at, n, e) at h in
        let same : s ≡ q = cc in
        let shorter : chars s < chars a = break_at-shorter x a r s e in
        rw (sym same) (omega (arith, shorter))
  ]
]

has_char-append : (x : ℕ) (a b : String) → has_char x b ≡ true → has_char x (append a b) ≡ true
unfolding has_char
has_char-append x String.[] b h = h
has_char-append x (String.◌∷◌ c a) b h = ground (arith, has_char-append x a b h)

has_char-in_front : (x : ℕ) (a b : String) → has_char x a ≡ true → has_char x (append a b) ≡ true
unfolding has_char
has_char-in_front x String.[] b h = cc
has_char-in_front x (String.◌∷◌ c a) b h = ground (arith, has_char-in_front x a b)

-- A range with a colon: an open bracket, a text with a colon and without a closing bracket, and a
-- closing bracket.
abbrev pub with_subquery : String → String → String → String
with_subquery a b c = append a (String.◌∷◌ "[" (append b (String.◌∷◌ "]" c)))

close-subquery :
    (b c : String)
    → break_at b']' b ≡ none
    → break_at b']' (append b (String.◌∷◌ "]" c)) ≡ some (append b "", c)
unfolding break_at
close-subquery b c n =
    break_at-append b']' b (String.◌∷◌ "]" c)
    ∙ ap (λ o. in_front o (String.◌∷◌ "]" c) (some ("", c)) b) n

loop-finds :
    (fuel : ℕ) (a b c : String)
    → chars a < fuel
    → break_at b']' b ≡ none
    → has_char b':' b ≡ true
    → subquery_loop fuel (with_subquery a b c) ≡ true
unfolding subquery_loop subquery_turn close_of
loop-finds zero a b c h n y = absurd (omega (arith, h))
loop-finds (suc fuel) a b c h n y =
    let tail = String.◌∷◌ "[" (append b (String.◌∷◌ "]" c)) in
    let open_tail : break_at b'[' tail ≡ some ("", append b (String.◌∷◌ "]" c)) =
      unfold break_at in refl in
    let opened = break_at-append b'[' a tail in
    elim (Option-cases (break_at b'[' a)) [
      | inl none_before ↦
          rw (opened, none_before, close-subquery b c n, has_char-in_front b':' b "" y) refl
      | inr ((p, q), before) ↦
          let closed = break_at-append b']' q tail in
          let close_tail : break_at b']' tail ≡ some (String.◌∷◌ "[" (append b ""), c) =
            break_at-cons b']' "[" (append b (String.◌∷◌ "]" c)) refl
            ∙ ap (cons_first "[") (close-subquery b c n) in
          elim (Option-cases (break_at b']' q)) [
            | inl not_closed ↦
                let colon : has_char b':' (append q (String.◌∷◌ "[" (append b ""))) ≡ true =
                  has_char-append b':' q (String.◌∷◌ "[" (append b "")) (
                    has_char-append b':' (String.◌∷◌ "[" "") (append b "")
                      (has_char-in_front b':' b "" y)) in
                rw (opened, before, closed, not_closed, close_tail, colon) refl
            | inr ((inside, rest), closes) ↦
                let shorter : chars rest < fuel = omega (
                  arith,
                  h,
                  break_at-shorter b'[' a p q before,
                  break_at-shorter b']' q inside rest closes,
                ) in
                rw (opened, before, closed, closes)
                  (elim (Bool-cases (has_char b':' inside)) [
                    | inl colon ↦ rw colon refl
                    | inr no_colon ↦ rw no_colon (loop-finds fuel rest b c shorter n y)
                  ])
          ]
    ]

chars-append : (a t : String) → chars a ≤ chars (append a t)
chars-append String.[] t = omega arith
chars-append (String.◌∷◌ x a) t = omega (arith, chars-append a t)

chars-with_subquery : (a b c : String) → chars a < chars (with_subquery a b c)
chars-with_subquery String.[] b c = omega arith
chars-with_subquery (String.◌∷◌ x a) b c = omega (arith, chars-with_subquery a b c)

-- Wherever a subquery stands in an expression, and whatever brackets stand before and after it, the
-- check finds it.
pub contains_promql_subquery-finds :
    (a b c : String)
    → break_at b']' b ≡ none
    → has_char b':' b ≡ true
    → contains_promql_subquery (with_subquery a b c) ≡ true
unfolding contains_promql_subquery
contains_promql_subquery-finds a b c n y =
    loop-finds (chars (with_subquery a b c)) a b c (chars-with_subquery a b c) n y
