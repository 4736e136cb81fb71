-- ===== src/Nif/Lifecycle/Invariant.antt =====
-- What the steps keep: the number of leases against the living snapshots and iterators, and the
-- snapshots that references and iterators need.
use mathlib.Core.List.{Memᴰ}
use mathlib.Core.List.Memᴰ as Member
use ex_rocket.Prelude.{
  ℕ, suc, ◌+◌, ◌^◌, ◌<◌, ◌≤◌, ◌≡◌, ◌≢◌, refl, sym, ap, ◌∙◌, Bool, true, false, Option, none, some,
  List, [], ◌∷◌, length, All, arith, Option-cases, inl, inr,
}
use ex_rocket.Nif.Rocks.{Rocks}
use ex_rocket.Nif.Handlers.{Reply, DbResource, close, close_open}
use ex_rocket.Nif.Handlers.Closed.{perform-closed, perform-open, guarded-none, guarded-some}
use ex_rocket.Nif.Lifecycle.{
  IteratorResource, Removes, here, there, SnapshotResource, World, opened, snapshot,
  make_iterator_resource, make_snapshot_iterator_resource, ids, children, Step, calls, guards,
  closes, snapshots, iterates, snapshot_iterates, forgets, drops_iterator, drops_snapshot,
  drop_lease_if, Reachable, starts, steps,
}

module _ {A : Type 0} {P Q R : A → Type 0} where
  All-both : (xs : List A) → ((x : A) → P x → Q x → R x) → All P xs → All Q xs → All R xs
  All-both [] f hp hq = tt
  All-both (x ∷ xs) f (p, hp) (q, hq) = (f x p q, All-both xs f hp hq)

module _ {A : Type 0} {P R : A → Type 0} where
  All-map : (xs : List A) → ((x : A) → P x → R x) → All P xs → All R xs
  All-map [] f hp = tt
  All-map (x ∷ xs) f (p, hp) = (f x p, All-map xs f hp)

All-Mem :
    {living : List ℕ} (id : ℕ) (references : List ℕ)
    → All (λ (id : ℕ). Memᴰ id living) references
    → Memᴰ id references
    → Memᴰ id living
All-Mem id [] h m = elim m [ ]
All-Mem id (x ∷ references) (p, h) (Member.head e) = Member.cast e p
All-Mem id (x ∷ references) (p, h) (Member.tail m) = All-Mem id references h m

same_Mem :
    {id other : ℕ} {living : List ℕ} → some id ≡ some other → Memᴰ id living → Memᴰ other living
same_Mem {id} {other} e m = let same : other ≡ id = cc in Member.cast same m

module _ {A : Type 0} {x : A} where
  Removes-All : (P : A → Type 0) {xs ys : List A} → Removes x xs ys → All P xs → All P ys
  Removes-All P here (p, h) = h
  Removes-All P (there r) (p, h) = (p, Removes-All P r h)

  Removes-at : (P : A → Type 0) {xs ys : List A} → Removes x xs ys → All P xs → P x
  Removes-at P here (p, h) = p
  Removes-at P (there r) (p, h) = Removes-at P r h

  pub length-Removes : {xs ys : List A} → Removes x xs ys → length xs ≡ suc (length ys)
  length-Removes here = refl
  length-Removes (there r) = let rest = length-Removes r in omega (arith, rest)

abbrev pub one_if : Bool → ℕ
one_if true = 1
one_if false = 0

-- The iterators that hold a lease of their own.
unfoldable pub leased : List IteratorResource → ℕ
leased [] = 0
leased (it ∷ iterators) = one_if it.lease + leased iterators

leased-Removes :
    {it : IteratorResource} {xs ys : List IteratorResource}
    → Removes it xs ys
    → leased xs ≡ one_if it.lease + leased ys
unfolding leased
leased-Removes here = refl
leased-Removes (there r) = let rest = leased-Removes r in omega (arith, rest)

pub leased-length : (xs : List IteratorResource) → leased xs ≤ length xs
unfolding leased
leased-length [] = omega arith
leased-length (it ∷ xs) = let rest = leased-length xs in ground (arith, rest)

-- An iterator holds a lease, or the snapshot it reads from is among the living.
pub record Owned (living : List ℕ) (it : IteratorResource) : Type 0 where
  pub own : it.snapshot_owner ≡ none → it.lease ≡ true
  pub borrowed : (id : ℕ) → it.snapshot_owner ≡ some id → (it.lease ≡ false) × Memᴰ id living

module _ (rocks : Rocks) where
  pub record Inv (w : World rocks) : Type 0 where
    pub counted : w.resource.leases ≡ length w.snapshots + leased w.iterators
    pub bounded : children rocks w < 2 ^ 64
    pub referenced : All (λ (id : ℕ). Memᴰ id (ids rocks w.snapshots)) w.references
    pub owned : All (Owned (ids rocks w.snapshots)) w.iterators
    pub idle : w.resource.db ≡ none → w.resource.leases ≡ 0

  ids-Removes :
      {s : SnapshotResource rocks} {xs ys : List (SnapshotResource rocks)} (id : ℕ)
      → Removes s xs ys
      → Memᴰ id (ids rocks xs)
      → id ≢ s.id
      → Memᴰ id (ids rocks ys)
  ids-Removes id here (Member.head e) other = absurd (other e)
  ids-Removes id here (Member.tail m) other = m
  ids-Removes id (there r) (Member.head e) other = Member.head e
  ids-Removes id (there r) (Member.tail m) other = Member.tail (ids-Removes id r m other)

  Owned-more :
      {id : ℕ} {living : List ℕ} (it : IteratorResource) → Owned living it → Owned (id ∷ living) it
  Owned-more it o = record {
    own = o.own;
    borrowed = λ i e. ((o.borrowed i e).0, Member.tail ((o.borrowed i e).1));
  }

  drop_lease_if-leases :
      (lease : Bool) (owner : DbResource rocks) (rest : ℕ)
      → owner.leases ≡ one_if lease + rest
      → owner.leases < 2 ^ 64
      → ((drop_lease_if rocks lease owner).leases ≡ rest)
        × ((drop_lease_if rocks lease owner).db ≡ owner.db)
  drop_lease_if-leases true owner rest e small = (omega (arith, e, small), refl)
  drop_lease_if-leases false owner rest e small = (omega (arith, e), refl)

  Owned-rest :
      {s : SnapshotResource rocks} {xs ys : List (SnapshotResource rocks)}
      → Removes s xs ys
      → (it : IteratorResource) → Owned (ids rocks xs) it
      → it.snapshot_owner ≢ some s.id
      → Owned (ids rocks ys) it
  Owned-rest r it o other = record {
    own = o.own;
    borrowed = λ i e. (
      (o.borrowed i e).0,
      ids-Removes i r ((o.borrowed i e).1) (λ same. other (e ∙ ap some same)),
    );
  }

  opened-Inv : (db : rocks.Db) → Inv (opened rocks db)
  unfolding leased
  opened-Inv db = record {
    counted = refl;
    bounded = omega arith;
    referenced = tt;
    owned = tt;
    idle = λ e. refl;
  }

  -- A change of the resource alone.
  resource-Inv :
      (w : World rocks) (resource : DbResource rocks)
      → resource.leases ≡ w.resource.leases
      → (resource.db ≡ none → w.resource.leases ≡ 0)
      → Inv w
      → Inv (record w { resource = resource })
  resource-Inv w resource same idle v = record {
    counted = same ∙ v.counted;
    bounded = v.bounded;
    referenced = v.referenced;
    owned = v.owned;
    idle = λ e. same ∙ idle e;
  }

  close_open-keeps :
      (db : Option rocks.Db) (leases : ℕ)
      → (db ≡ none → leases ≡ 0)
      → ((close_open rocks db leases).1.leases ≡ leases)
        × ((close_open rocks db leases).1.db ≡ none → leases ≡ 0)
  close_open-keeps none leases idle = (refl, idle)
  close_open-keeps (some db) leases idle = (ground arith, λ e. ground arith)

  Step-Inv : (w w' : World rocks) → Step rocks w w' → Inv w → Inv w'
  unfolding snapshot make_iterator_resource make_snapshot_iterator_resource leased close
  Step-Inv w w' (calls call) v = elim (Option-cases w.resource.db) [
    | inl e ↦
        let same = perform-closed rocks call w.resource e in
        resource-Inv w _ (ap (λ (o : Reply × DbResource rocks). o.1.leases) same) (λ _. v.idle e) v
    | inr (db, e) ↦
        let (db', same) = perform-open rocks call w.resource db e in
        resource-Inv w _ (ap (λ (o : DbResource rocks). o.leases) same)
          (λ gone. let now = ap (λ (o : DbResource rocks). o.db) same in cc) v
  ]
  Step-Inv w w' (guards body) v = elim (Option-cases w.resource.db) [
    | inl e ↦
        let same = guarded-none rocks body w.resource.leases w.resource.db e in
        resource-Inv w _ (ap (λ (o : Reply × DbResource rocks). o.1.leases) same) (λ _. v.idle e) v
    | inr (db, e) ↦
        let (db', same) = guarded-some rocks body w.resource.leases w.resource.db e in
        resource-Inv w _ (ap (λ (o : DbResource rocks). o.leases) same)
          (λ gone. let now = ap (λ (o : DbResource rocks). o.db) same in cc) v
  ]
  Step-Inv w w' closes v =
      let (same, idle) = close_open-keeps w.resource.db w.resource.leases v.idle in
      resource-Inv w _ same idle v
  Step-Inv w w' (snapshots db e room) v = record {
    counted = omega (arith, v.counted, room, leased-length w.iterators);
    bounded = omega (arith, room);
    referenced = (Member.head refl, All-map w.references (λ _ m. Member.tail m) v.referenced);
    owned = All-map w.iterators Owned-more v.owned;
    idle = λ closed. cc;
  }
  Step-Inv w w' (iterates db e room) v = record {
    counted = omega (arith, v.counted, room, leased-length w.iterators);
    bounded = omega (arith, room);
    referenced = v.referenced;
    owned = (record { own = λ _. refl; borrowed = λ id e. cc }, v.owned);
    idle = λ closed. cc;
  }
  Step-Inv w w' (snapshot_iterates id m room) v =
      let alive = All-Mem id w.references v.referenced m in
      record {
        counted = omega (arith, v.counted);
        bounded = omega (arith, room);
        referenced = v.referenced;
        owned = (record { own = λ e. cc; borrowed = λ i e. (refl, same_Mem e alive) }, v.owned);
        idle = v.idle;
      }
  Step-Inv w w' (forgets id references r) v = record {
    counted = v.counted;
    bounded = v.bounded;
    referenced = Removes-All (λ (id : ℕ). Memᴰ id (ids rocks w.snapshots)) r v.referenced;
    owned = v.owned;
    idle = v.idle;
  }
  Step-Inv w w' (drops_iterator it iterators r) v =
      let lengths = length-Removes r in
      let count = leased-Removes r in
      let (dropped, same) =
        drop_lease_if-leases it.lease w.resource (length w.snapshots + leased iterators)
          (omega (arith, v.counted, count))
          (omega (arith, v.counted, v.bounded, leased-length w.iterators)) in
      record {
        counted = dropped;
        bounded = omega (arith, lengths, v.bounded);
        referenced = v.referenced;
        owned = Removes-All (Owned (ids rocks w.snapshots)) r v.owned;
        idle = λ closed.
            let none_left = v.idle (sym same ∙ closed) in
            omega (arith, none_left, dropped, v.counted, count);
      }
  Step-Inv w w' (drops_snapshot s rest r unreferenced unowned) v =
      let lengths = length-Removes r in
      record {
        counted = omega (arith, v.counted, v.bounded, lengths, leased-length w.iterators);
        bounded = omega (arith, lengths, v.bounded);
        referenced =
            All-both w.references (λ id m other. ids-Removes id r m other) v.referenced
              unreferenced;
        owned = All-both w.iterators (Owned-rest r) v.owned unowned;
        idle = λ closed.
            let none_left = v.idle closed in absurd (omega (arith, none_left, v.counted, lengths));
      }

  -- The invariant holds in every world that can be reached.
  pub Reachable-Inv : (w : World rocks) → Reachable rocks w → Inv w
  Reachable-Inv w (starts db) = opened-Inv db
  Reachable-Inv w (steps {w = before} reached step) =
      Step-Inv before w step (Reachable-Inv before reached)
