-- ===== src/Nif/Snapshot.antt =====
-- The handlers of native/rocker/src/nif.rs that read from a snapshot: `decode_snapshot`, `snapshot_get`,
-- `snapshot_get_cf`, `snapshot_multi_get` and `snapshot_multi_get_cf`. The resource that is passed along
-- is `snapshot.owner`. That a binary cannot be allocated is not modelled.
pub mod Repeats
use ex_rocket.Prelude.{◌≡◌, refl, Option, none, some, List, [], ◌∷◌}
use ex_rocket.Prelude.Chain.{◌>>=◌, collect}
use ex_rocket.Text.Utf8.{Bytes, Chars}
use ex_rocket.Options.Rustler.{Rustler}
use ex_rocket.Nif.Rocks.{Rocks}
use ex_rocket.Nif.Handlers.{
  Reply, item, items, bad_arg, unknown_cf, looked_up, DbResource, with_db, on_cf,
}
use ex_rocket.Nif.Lifecycle.{SnapshotResource}
use ex_rocket.Nif.MultiGet.{map, pair_of, request_of}

-- `decode` at the type `ResourceArc<SnapshotResource>`
pub record Resources (r : Rustler) (rocks : Rocks) : Type 0 where
  pub decode_resource : r.Term → Option (SnapshotResource rocks)

module _ (r : Rustler) (rocks : Rocks) (resources : Resources r rocks) where
  open r use {Term, decode_binary, decode_list, get_tuple}
  open rocks use {Db, Cf, cf_handle}

  -- The last of exactly three terms.
  abbrev pub decode_third : List Term → Option (SnapshotResource rocks)
  decode_third (tag ∷ owner ∷ resource ∷ []) = resources.decode_resource resource
  decode_third _ = none

  unfoldable pub decode_snapshot : Term → Option (SnapshotResource rocks)
  decode_snapshot resource = do terms ← get_tuple resource; decode_third terms

  -- `decode_snapshot(resource)?` before the rest of a handler.
  abbrev pub with_snapshot :
      {S : Type 0}
      → Option (SnapshotResource rocks)
      → (rocks.Snapshot → S → Reply × S)
      → S
      → Reply × S
  with_snapshot none body s = (bad_arg, s)
  with_snapshot (some resource) body s = body resource.snapshot s

  unfoldable pub snapshot_get : Term → Bytes → DbResource rocks → Reply × DbResource rocks
  snapshot_get resource key =
      with_snapshot (decode_snapshot resource)
        λ snapshot owner. (item (looked_up (rocks.snapshot_get key snapshot)), owner)

  unfoldable pub snapshot_get_cf :
      Term → Chars → Bytes → DbResource rocks → Reply × DbResource rocks
  snapshot_get_cf resource name key = with_snapshot (decode_snapshot resource) λ snapshot.
      with_db rocks λ db.
        on_cf rocks (cf_handle db name)
          (λ cf db'. (item (looked_up (rocks.snapshot_get_cf cf key snapshot)), db')) db

  -- `keys?` comes after `decode_snapshot(resource)?`.
  abbrev pub snapshot_found_all :
      {S : Type 0} → Option (List Bytes) → rocks.Snapshot → S → Reply × S
  snapshot_found_all none snapshot s = (bad_arg, s)
  snapshot_found_all (some keys) snapshot s =
      (items (map looked_up (rocks.snapshot_multi_get keys snapshot)), s)

  abbrev pub snapshot_get_listed :
      Option (List Term) → Term → DbResource rocks → Reply × DbResource rocks
  snapshot_get_listed none resource owner = (bad_arg, owner)
  snapshot_get_listed (some keys) resource owner =
      with_snapshot (decode_snapshot resource) (snapshot_found_all (collect decode_binary keys))
        owner

  unfoldable pub snapshot_multi_get : Term → Term → DbResource rocks → Reply × DbResource rocks
  snapshot_multi_get resource keys = snapshot_get_listed (decode_list keys) resource

  abbrev pub snapshot_found_all_cf : rocks.Snapshot → Db → Option (List (Cf × Bytes)) → Reply × Db
  snapshot_found_all_cf snapshot db none = (unknown_cf, db)
  snapshot_found_all_cf snapshot db (some requests) =
      (items (map looked_up (rocks.snapshot_multi_get_cf requests snapshot)), db)

  abbrev pub snapshot_get_pairs :
      Option (List (Chars × Bytes)) → Term → DbResource rocks → Reply × DbResource rocks
  snapshot_get_pairs none resource owner = (bad_arg, owner)
  snapshot_get_pairs (some pairs) resource owner =
      with_snapshot (decode_snapshot resource)
        (λ snapshot.
          with_db rocks
            λ db. snapshot_found_all_cf snapshot db (collect (request_of r rocks db) pairs))
        owner

  unfoldable pub snapshot_multi_get_cf : Term → Term → DbResource rocks → Reply × DbResource rocks
  snapshot_multi_get_cf resource keys =
      snapshot_get_pairs (decode_list keys >>= collect (pair_of r rocks)) resource
