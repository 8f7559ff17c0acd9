-- ===== src/L1/Router/Rings.antt =====
-- The rings of the router of src/pkg/l1/routing.go over any sequence of calls.
use ipvn.Base.{
  ℕ, zero, suc, ◌<◌, ◌≤◌, ◌≡◌, ◌∙◌, String, List, [], ◌∷◌, ◌++◌, Option, none, some, leb, length,
  get_or, set, All, All-set, length-set, length-append, arith, Bool-cases, inl, inr, str_eq,
}
use ipvn.L1.Router.{
  Floats, RouterPeer, Router, replace_peer, remove_at, worst_in_rings, give_up, make_room,
  append_peer, without,
}

-- No ring is longer than the bound.
abbrev pub Fit : ℕ → List (List String) → Type 0
Fit n rings = All (λ ring. length ring ≤ n) rings

pub Fit-get_or :
    (n : ℕ) (rings : List (List String)) (i : ℕ) → Fit n rings → length (get_or rings i []) ≤ n
Fit-get_or n [] i fit = omega arith
Fit-get_or n (ring ∷ rings) zero fit = fit.0
Fit-get_or n (ring ∷ rings) (suc i) fit = Fit-get_or n rings i fit.1

pub Fit-set :
    (n : ℕ) (rings : List (List String)) (i : ℕ) (ring : List String)
    → Fit n rings
    → length ring ≤ n
    → Fit n (set rings i ring)
Fit-set n rings i ring = All-set (λ ring. length ring ≤ n) rings i ring

remove_at_shorter : (xs : List String) (i : ℕ) → length (remove_at xs i) ≤ length xs
remove_at_shorter [] i = omega arith
remove_at_shorter (x ∷ xs) zero = omega arith
remove_at_shorter (x ∷ xs) (suc i) = omega (arith, remove_at_shorter xs i)

pub without_shorter : (did : String) (xs : List String) → length (without did xs) ≤ length xs
without_shorter did [] = omega arith
without_shorter did (x ∷ xs) = elim (Bool-cases (str_eq x did)) [
  | inl e ↦ rw e (omega (arith, without_shorter did xs))
  | inr e ↦ rw e (omega (arith, without_shorter did xs))
]

-- Setting one ring where it was taken from, at no more than its length, lengthens no ring.
get_or-set_shorter :
    (rings : List (List String)) (i j : ℕ) (ring : List String)
    → length ring ≤ length (get_or rings i [])
    → length (get_or (set rings i ring) j []) ≤ length (get_or rings j [])
get_or-set_shorter [] i j ring h = omega arith
get_or-set_shorter (x ∷ xs) zero zero ring h = h
get_or-set_shorter (x ∷ xs) zero (suc j) ring h = omega arith
get_or-set_shorter (x ∷ xs) (suc i) zero ring h = omega arith
get_or-set_shorter (x ∷ xs) (suc i) (suc j) ring h = get_or-set_shorter xs i j ring h

module _ {f : Floats} where
  pub record IsBounded (rings per_ring : ℕ) (r : Router f) : Type 0 where
    pub some_rings : 0 < rings
    pub ring_number : r.num_rings ≡ rings
    pub ring_size : r.peers_per_ring ≡ per_ring
    pub all_rings : length r.rings ≡ rings
    pub fit : Fit per_ring r.rings

  pub replace_peer-IsBounded :
      {n k : ℕ} (r : Router f) (p : RouterPeer f) (found : Option ℕ)
      → IsBounded n k r
      → IsBounded n k (replace_peer r p found)
  replace_peer-IsBounded r p none ok = ok
  replace_peer-IsBounded {n = n} {k = k} r p (some i) ok =
      let ring = get_or r.rings p.ring_index [] in
      record {
        some_rings = ok.some_rings;
        ring_number = ok.ring_number;
        ring_size = ok.ring_size;
        all_rings = length-set r.rings p.ring_index (set ring i p.did) ∙ ok.all_rings;
        fit =
            Fit-set k r.rings p.ring_index (set ring i p.did) ok.fit
              (omega (arith, length-set ring i p.did, Fit-get_or k r.rings p.ring_index ok.fit));
      }

  give_up-IsBounded :
      {n k : ℕ} (r : Router f) (found : Option (String × ℕ × ℕ))
      → IsBounded n k r
      → IsBounded n k (give_up r found)
  give_up-IsBounded r none ok = ok
  give_up-IsBounded {n = n} {k = k} r (some (did, j, i)) ok = elim (Bool-cases (str_eq did "")) [
    | inl e ↦ rw e ok
    | inr e ↦
        let ring = get_or r.rings j [] in
        rw e (record {
          some_rings = ok.some_rings;
          ring_number = ok.ring_number;
          ring_size = ok.ring_size;
          all_rings = length-set r.rings j (remove_at ring i) ∙ ok.all_rings;
          fit =
              Fit-set k r.rings j (remove_at ring i) ok.fit
                (omega (arith, remove_at_shorter ring i, Fit-get_or k r.rings j ok.fit));
        })
  ]

  give_up_shorter :
      (r : Router f) (found : Option (String × ℕ × ℕ)) (j : ℕ)
      → length (get_or (give_up r found).rings j []) ≤ length (get_or r.rings j [])
  give_up_shorter r none j = omega arith
  give_up_shorter r (some (did, m, i)) j = elim (Bool-cases (str_eq did "")) [
    | inl e ↦ rw e (omega arith)
    | inr e ↦ rw e (
        get_or-set_shorter r.rings m j (remove_at (get_or r.rings m []) i)
          (remove_at_shorter (get_or r.rings m []) i))
  ]

  -- Making room keeps the bounds, and lengthens no ring.
  pub make_room-IsBounded :
      {n k : ℕ} (r : Router f) (j : ℕ)
      → IsBounded n k r
      → IsBounded n k (make_room r)
        × (length (get_or (make_room r).rings j []) ≤ length (get_or r.rings j []))
  unfolding make_room
  make_room-IsBounded {n = n} {k = k} r j ok =
      elim (Bool-cases (leb r.max_total_peers (length r.peer_index))) [
        | inl e ↦
            let found = (worst_in_rings r 0 r.rings (none, f.lit 999 1)).0 in
            rw e (give_up-IsBounded r found ok, give_up_shorter r found j)
        | inr e ↦ rw e (ok, omega arith)
      ]

  pub append_peer-IsBounded :
      {n k : ℕ} (r : Router f) (p : RouterPeer f)
      → IsBounded n k r
      → length (get_or r.rings p.ring_index []) < k
      → IsBounded n k (append_peer r p)
  unfolding append_peer
  append_peer-IsBounded {n = n} {k = k} r p ok room =
      let ring = get_or r.rings p.ring_index [] in
      record {
        some_rings = ok.some_rings;
        ring_number = ok.ring_number;
        ring_size = ok.ring_size;
        all_rings = length-set r.rings p.ring_index (ring ++ (p.did ∷ [])) ∙ ok.all_rings;
        fit =
            Fit-set k r.rings p.ring_index (ring ++ (p.did ∷ [])) ok.fit
              (omega (arith, length-append ring (p.did ∷ []), room));
      }
