-- ===== src/Nif/MultiGet/Each.antt =====
-- `multi_get` and `multi_get_cf` against `get` and `get_cf` for each key.
use mathlib.Core.List.{Memᴰ}
use mathlib.Core.List.Memᴰ as Member
use ex_rocket.Prelude.{
  ℕ, ◌≡◌, refl, ap₂, sym, subst, Option, none, some, List, [], ◌∷◌, ◌⊎◌, inl, inr, Option-cases,
}
use ex_rocket.Prelude.Chain.{>>=-eq-some, collect}
use ex_rocket.Text.Utf8.{Bytes, Chars}
use ex_rocket.Options.Rustler.{Rustler}
use ex_rocket.Nif.Rocks.{Rocks}
use ex_rocket.Nif.Handlers.{
  Reply, Item, item, items, unknown_cf, looked_up, DbResource, guarded, get, get_cf,
}
use ex_rocket.Nif.MultiGet.{map, multi_get, pair_of, request_of, multi_get_cf}

-- The crate's functions for many keys give, in order, what the ones for a single key give.
pub record Pointwise (rocks : Rocks) : Type 0 where
  pub by_key :
      (keys : List Bytes) (db : rocks.Db)
      → rocks.multi_get keys db ≡ map (λ (key : Bytes). rocks.get key db) keys
  pub by_pair :
      (requests : List (rocks.Cf × Bytes)) (db : rocks.Db)
      → rocks.multi_get_cf requests db
        ≡ map (λ (request : rocks.Cf × Bytes). rocks.get_cf request.0 request.1 db) requests

module _ (r : Rustler) (rocks : Rocks) (pointwise : Pointwise rocks) where
  open r use {Term, decode_binary, decode_list}

  guarded-lookup :
      (body : rocks.Db → Reply × rocks.Db) (reply : Reply) (leases : ℕ) (held : Option rocks.Db)
      (db : rocks.Db)
      → held ≡ some db
      → body db ≡ (reply, db)
      → guarded rocks body leases held ≡ (reply, record { db = held; leases = leases })
  guarded-lookup body reply leases none db e h = cc
  guarded-lookup body reply leases (some x) db e h = let same : x ≡ db = cc in rw (same, h) refl

  gets-items :
      (keys : List Bytes) (db : rocks.Db) (resource : DbResource rocks)
      → resource.db ≡ some db
      → map item (map looked_up (map (λ (key : Bytes). rocks.get key db) keys))
        ≡ map (λ (key : Bytes). (get rocks key resource).0) keys
  unfolding get
  gets-items [] db resource e = refl
  gets-items (key ∷ keys) db resource e = rw (e, gets-items keys db resource e) refl

  -- On an open database a list of binaries gets, in the same order, the replies that `get` gives for
  -- each of them, and nothing changes.
  pub multi_get-Each :
      (keys : Term) (terms : List Term) (names : List Bytes) (resource : DbResource rocks)
      (db : rocks.Db)
      → decode_list keys ≡ some terms
      → collect decode_binary terms ≡ some names
      → resource.db ≡ some db
      → (found : List Item) × (multi_get r rocks keys resource ≡ (items found, resource))
        × (map item found ≡ map (λ (key : Bytes). (get rocks key resource).0) names)
  unfolding multi_get
  multi_get-Each keys terms names resource db listed read e = (
    map looked_up (rocks.multi_get names db),
    rw (listed, read) (guarded-lookup _ _ resource.leases resource.db db e refl),
    rw (pointwise.by_key names db) (gets-items names db resource e),
  )

  get_cf-known :
      (name : Chars) (key : Bytes) (resource : DbResource rocks) (db : rocks.Db) (cf : rocks.Cf)
      → resource.db ≡ some db
      → rocks.cf_handle db name ≡ some cf
      → (get_cf rocks name key resource).0 ≡ item (looked_up (rocks.get_cf cf key db))
  unfolding get_cf
  get_cf-known name key resource db cf e known = rw (e, known) refl

  -- What the calls for each pair reply if all column families are known.
  pairs-items :
      (pairs : List (Chars × Bytes)) (requests : List (rocks.Cf × Bytes)) (db : rocks.Db)
      (resource : DbResource rocks)
      → resource.db ≡ some db
      → collect (request_of r rocks db) pairs ≡ some requests
      → map item (
          map looked_up
            (map (λ (request : rocks.Cf × Bytes). rocks.get_cf request.0 request.1 db) requests))
        ≡ map (λ (pair : Chars × Bytes). (get_cf rocks pair.0 pair.1 resource).0) pairs
  unfolding get_cf collect
  pairs-items [] [] db resource e h = refl
  pairs-items [] (request ∷ requests) db resource e h = cc
  pairs-items ((name, key) ∷ pairs) requests db resource e h =
      let (request, e1, h1) = >>=-eq-some (request_of r rocks db (name, key)) _ h in
      let (rest, e2, h2) = >>=-eq-some (collect (request_of r rocks db) pairs) _ h1 in
      let (cf, known, g) = >>=-eq-some (rocks.cf_handle db name) _ e1 in
      let same : (cf, key) ∷ rest ≡ requests = cc in
      subst
        (λ (l : List (rocks.Cf × Bytes)).
          map item (
            map looked_up
              (map (λ (request : rocks.Cf × Bytes). rocks.get_cf request.0 request.1 db) l))
          ≡ (get_cf rocks name key resource).0
            ∷ map (λ (pair : Chars × Bytes). (get_cf rocks pair.0 pair.1 resource).0) pairs)
        same
        (ap₂ (λ (x : Reply) (xs : List Reply). x ∷ xs)
          (sym (get_cf-known name key resource db cf e known))
          (pairs-items pairs rest db resource e e2))

  -- A pair that the first failure of `collect` is about.
  stopped :
      (pairs : List (Chars × Bytes)) (db : rocks.Db) (resource : DbResource rocks)
      → resource.db ≡ some db
      → collect (request_of r rocks db) pairs ≡ none
      → (pair : Chars × Bytes) × Memᴰ pair pairs
        × ((get_cf rocks pair.0 pair.1 resource).0 ≡ unknown_cf)
  unfolding get_cf collect
  stopped [] db resource e h = cc
  stopped ((name, key) ∷ pairs) db resource e h = elim (Option-cases (rocks.cf_handle db name)) [
    | inl unknown ↦ ((name, key), Member.head refl, rw (e, unknown) refl)
    | inr (cf, known) ↦ elim (Option-cases (collect (request_of r rocks db) pairs)) [
      | inl none_left ↦
          let (pair, m, u) = stopped pairs db resource e none_left in (pair, Member.tail m, u)
      | inr (rest, some_left) ↦
          let whole : some ((cf, key) ∷ rest) ≡ none = rw (known, some_left) at h in cc
    ]
  ]

  -- On an open database a list of pairs gets, in the same order, the replies that `get_cf` gives for
  -- each of them; if `get_cf` knows the column family of one of them not, the whole reply is
  -- `unknown_cf`. Nothing changes in either case.
  pub multi_get_cf-Each :
      (keys : Term) (terms : List Term) (pairs : List (Chars × Bytes)) (resource : DbResource rocks)
      (db : rocks.Db)
      → decode_list keys ≡ some terms
      → collect (pair_of r rocks) terms ≡ some pairs
      → resource.db ≡ some db
      → ((multi_get_cf r rocks keys resource ≡ (unknown_cf, resource))
          × (pair : Chars × Bytes) × Memᴰ pair pairs
          × ((get_cf rocks pair.0 pair.1 resource).0 ≡ unknown_cf))
        ⊎ ((found : List Item) × (multi_get_cf r rocks keys resource ≡ (items found, resource))
            × (map item found
                ≡ map (λ (pair : Chars × Bytes). (get_cf rocks pair.0 pair.1 resource).0) pairs))
  unfolding multi_get_cf
  multi_get_cf-Each keys terms pairs resource db listed read e =
      elim (Option-cases (collect (request_of r rocks db) pairs)) [
        | inl none_left ↦
            let (pair, m, u) = stopped pairs db resource e none_left in
            inl (
              rw (listed, read)
                  (guarded-lookup _ _ resource.leases resource.db db e (rw none_left refl)),
              pair,
              m,
              u,
            )
        | inr (requests, all) ↦ inr (
          map looked_up (rocks.multi_get_cf requests db),
          rw (listed, read) (guarded-lookup _ _ resource.leases resource.db db e (rw all refl)),
          rw (pointwise.by_pair requests db) (pairs-items pairs requests db resource e all),
        )
      ]
