-- ===== src/Nif/MultiGet.antt =====
-- `multi_get` and `multi_get_cf` of native/rocker/src/nif.rs.
pub mod Each
use ex_rocket.Prelude.{
  ℕ, ◌≡◌, refl, ap, ◌∙◌, sym, Option, none, some, List, [], ◌∷◌, length, get_elem?, if◌then◌else◌,
  ◌==◌,
}
use ex_rocket.Prelude.Chain.{◌>>=◌, >>=-eq-some, collect}
use ex_rocket.Text.Utf8.{Bytes, Chars}
use ex_rocket.Options.Rustler.{Rustler}
use ex_rocket.Nif.Rocks.{Rocks, Lookup}
use ex_rocket.Nif.Handlers.{
  Reply, Item, item, items, bad_arg, unknown_cf, looked_up, DbResource, with_db, get, get_cf,
}

abbrev pub map {ℓ κ} : {A : Type ℓ} {B : Type κ} → (A → B) → List A → List B
map f [] = []
map f (x ∷ xs) = f x ∷ map f xs

module _ (r : Rustler) (rocks : Rocks) where
  open r use {Term, decode_string, decode_binary, decode_list, get_tuple}
  open rocks use {Db, Cf, cf_handle}

  abbrev pub found_all : Option (List Bytes) → Db → Reply × Db
  found_all none db = (bad_arg, db)
  found_all (some keys) db = (items (map looked_up (rocks.multi_get keys db)), db)

  abbrev pub get_listed : Option (List Term) → DbResource rocks → Reply × DbResource rocks
  get_listed none resource = (bad_arg, resource)
  get_listed (some keys) resource = with_db rocks (found_all (collect decode_binary keys)) resource

  unfoldable pub multi_get : Term → DbResource rocks → Reply × DbResource rocks
  multi_get keys resource = get_listed (decode_list keys) resource

  abbrev pub pair_in : List Term → Option (Chars × Bytes)
  pair_in (name ∷ key ∷ []) = do
    name' ← decode_string name
    key' ← decode_binary key
    some (name', key')
  pair_in _ = none

  -- A pair of the name of a column family and a key.
  abbrev pub pair_of : Term → Option (Chars × Bytes)
  pair_of term = do terms ← get_tuple term; pair_in terms

  -- `requests`, unless a column family is not known.
  abbrev pub request_of : Db → Chars × Bytes → Option (Cf × Bytes)
  request_of db (name, key) = do cf ← cf_handle db name; some (cf, key)

  abbrev pub found_all_cf : Db → Option (List (Cf × Bytes)) → Reply × Db
  found_all_cf db none = (unknown_cf, db)
  found_all_cf db (some requests) = (items (map looked_up (rocks.multi_get_cf requests db)), db)

  abbrev pub get_pairs : Option (List (Chars × Bytes)) → DbResource rocks → Reply × DbResource rocks
  get_pairs none resource = (bad_arg, resource)
  get_pairs (some pairs) resource =
      with_db rocks (λ db. found_all_cf db (collect (request_of db) pairs)) resource

  unfoldable pub multi_get_cf : Term → DbResource rocks → Reply × DbResource rocks
  multi_get_cf keys resource = get_pairs (decode_list keys >>= collect pair_of) resource
