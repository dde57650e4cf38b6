-- ===== src/Hosts/Order.antt =====
-- hosts.go: the results of the hosts do not depend on the order in which the goroutines end.
use ship_grip_fim.Base.{
  ℕ, zero, suc, ◌<◌, Bool, true, ◌≡◌, ◌≢◌, refl, ap, sym, ◌∙◌, ◌==◌, Option, none, some, List, [],
  ◌∷◌, map, Text, arith, get_elem?, length, any, Bool-cases, inl, inr, if◌then◌else◌, Option-cases,
}
use ship_grip_fim.Hosts.{
  Credentials, RemoteHost, HostResult, set_elem, host_result, stored, store_result, store_all,
  run_on_all_hosts,
}

abbrev pub has : ℕ → List ℕ → Bool
has i js = any (λ j. j == i) js

get-set :
    (i j : ℕ) (r : HostResult) (ss : List HostResult)
    → j < length ss
    → get_elem? (set_elem i r ss) j ≡ (if i == j then some r else get_elem? ss j)
unfolding set_elem
get-set i j r [] h = absurd (omega arith)
get-set zero zero r (s ∷ ss) h = refl
get-set zero (suc j) r (s ∷ ss) h = ground arith
get-set (suc i) zero r (s ∷ ss) h = ground arith
get-set (suc i) (suc j) r (s ∷ ss) h = ground (arith, get-set i j r ss (omega arith))

length-set : (i : ℕ) (r : HostResult) (ss : List HostResult) → length (set_elem i r ss) ≡ length ss
unfolding set_elem
length-set i r [] = refl
length-set zero r (s ∷ ss) = refl
length-set (suc i) r (s ∷ ss) = ap suc (length-set i r ss)

ap2 : {x y : HostResult} {xs ys : List HostResult} → x ≡ y → xs ≡ ys → x ∷ xs ≡ y ∷ ys
ap2 p q = cc

list_ext :
    (xs ys : List HostResult)
    → length xs ≡ length ys
    → ((i : ℕ) → i < length xs → get_elem? xs i ≡ get_elem? ys i)
    → xs ≡ ys
list_ext [] [] h k = refl
list_ext [] (y ∷ ys) h k = absurd (omega (arith, h))
list_ext (x ∷ xs) [] h k = absurd (omega (arith, h))
list_ext (x ∷ xs) (y ∷ ys) h k =
    let e = list_ext xs ys (omega (arith, h)) (λ i q. k (suc i) (omega (arith, q))) in
    let p : x ≡ y = ground (arith, k 0 (omega arith)) in ap2 p e

get-some : (hs : List RemoteHost) (i : ℕ) → i < length hs → get_elem? hs i ≢ none
get-some [] i q e = absurd (omega (arith, q))
get-some (x ∷ hs) zero q e = absurd (ground arith)
get-some (x ∷ hs) (suc i) q e = get-some hs i (omega (arith, q)) e

get-map :
    (f : RemoteHost → HostResult) (hs : List RemoteHost) (i : ℕ) (h : RemoteHost)
    → get_elem? hs i ≡ some h
    → get_elem? (map f hs) i ≡ some (f h)
get-map f [] i h e = absurd (ground arith)
get-map f (x ∷ hs) zero h e = ground arith
get-map f (x ∷ hs) (suc i) h e = get-map f hs i h e

length-map : (f : RemoteHost → HostResult) (hs : List RemoteHost) → length (map f hs) ≡ length hs
length-map f [] = refl
length-map f (h ∷ hs) = ap suc (length-map f hs)

module _ (remote : Credentials → Text → Text → List Text → Text) (c : Credentials)
    (args : List Text) where
  abbrev result : RemoteHost → HostResult
  result h = host_result remote c args h

  length-stored :
      (o : Option RemoteHost) (i : ℕ) (slots : List HostResult)
      → length (stored remote c args o i slots) ≡ length slots
  unfolding stored
  length-stored none i slots = refl
  length-stored (some h) i slots = length-set i (result h) slots

  length-store :
      (hosts : List RemoteHost) (i : ℕ) (slots : List HostResult)
      → length (store_result remote c args hosts i slots) ≡ length slots
  unfolding store_result
  length-store hosts i slots = length-stored (get_elem? hosts i) i slots

  get-store :
      (hosts : List RemoteHost) (i j : ℕ) (slots : List HostResult)
      → length slots ≡ length hosts
      → j < length hosts
      → get_elem? (store_result remote c args hosts i slots) j
        ≡ (if i == j then get_elem? (map result hosts) j else get_elem? slots j)
  unfolding store_result stored
  get-store hosts i j slots l q = elim (Option-cases (get_elem? hosts i)) [
    | inl e ↦
        ap (λ o. get_elem? (stored remote c args o i slots) j) e
        ∙ ground (arith, get-some hosts i, e, q)
    | inr (h, e) ↦
        ap (λ o. get_elem? (stored remote c args o i slots) j) e
        ∙ get-set i j (result h) slots (omega (arith, l, q))
        ∙ elim (Bool-cases (i == j)) [
          | inl b ↦ rw b (sym (get-map result hosts j h (ground (arith, b, e))))
          | inr b ↦ rw b refl
        ]
  ]

  get-store_all :
      (hosts : List RemoteHost) (order : List ℕ) (j : ℕ) (slots : List HostResult)
      → length slots ≡ length hosts
      → j < length hosts
      → get_elem? (store_all remote c args hosts order slots) j
        ≡ (if has j order then get_elem? (map result hosts) j else get_elem? slots j)
  unfolding store_all
  get-store_all hosts [] j slots l q = refl
  get-store_all hosts (i ∷ order) j slots l q = ground (
    arith,
    get-store hosts i j slots l q,
    get-store_all hosts order j (store_result remote c args hosts i slots)
        (length-store hosts i slots ∙ l) q,
  )

  length-store_all :
      (hosts : List RemoteHost) (order : List ℕ) (slots : List HostResult)
      → length (store_all remote c args hosts order slots) ≡ length slots
  unfolding store_all
  length-store_all hosts [] slots = refl
  length-store_all hosts (i ∷ order) slots =
      length-store_all hosts order (store_result remote c args hosts i slots)
      ∙ length-store hosts i slots

  -- In whatever order the goroutines of the hosts end, when each has ended (once or more) the
  -- results are those of the hosts, one each, in the order of the hosts file.
  pub any_order :
      (hosts : List RemoteHost) (order : List ℕ)
      → ((i : ℕ) → i < length hosts → has i order ≡ true)
      → run_on_all_hosts remote c args hosts order ≡ map result hosts
  unfolding run_on_all_hosts
  any_order hosts order k =
      let blank : List HostResult = map (λ h. record { alias = []; output = [] }) hosts in
      let n = length-store_all hosts order blank in
      let l = length-map (λ h. record { alias = []; output = [] }) hosts in
      list_ext _ (map result hosts) (n ∙ l ∙ sym (length-map result hosts)) (λ i q.
        get-store_all hosts order i blank l (omega (arith, q, n, l))
        ∙ rw (k i (omega (arith, q, n, l))) refl)
