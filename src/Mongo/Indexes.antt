-- ===== src/Mongo/Indexes.antt =====
-- How the repositories of both programs create their collection and its indexes, over the calls of
-- the database's driver.
use Prim.Native.String.{String}
use text.Mathlib.Text.{◌==◌ as ◌===◌}
use text.Mathlib.TextPositions.{eq_refl}
use mathlib.Core.Path.{subst}
use tom_notifier.Base.{
  ◌≡◌, ◌∙◌, refl, ap, inl, inr, Bool, true, false, not, List, [], ◌∷◌, ◌++◌, map, Result, any,
  if◌then◌else◌, Bool-cases,
}
use tom_notifier.Mongo.{DriverError}

-- `IndexModel`: the fields of its keys, each ascending, and its options.
pub record IndexModel : Type 0 where
  pub keys : List String
  pub name : String
  pub unique : Bool

-- What a call makes of the database, and its result; `?` ends the chain at an error.
abbrev pub Action : Type 0 → Type 0 → Type 0
Action Db A = Db → Db × Result A DriverError

abbrev pub next :
    {Db A B : Type 0} → (A → Action Db B) → Db × Result A DriverError → Db × Result B DriverError
next f (db, Result.ok a) = f a db
next f (db, Result.err e) = (db, Result.err e)

infixl 5 ◌>>=◌ ◌>>◌
abbrev pub ◌>>=◌ : {Db A B : Type 0} → Action Db A → (A → Action Db B) → Action Db B
(m >>= f) db = next f (m db)

abbrev pub ◌>>◌ : {Db B : Type 0} → Action Db (Unit {0}) → Action Db B → Action Db B
m >> k = m >>= λ _. k

-- The calls of the driver on the database and on one of its collections.
pub record Database (Db : Type 0) : Type 0 where
  pub create_collection : String → Action Db (Unit {0})
  pub list_index_names : String → Action Db (List String)
  pub create_index : String → IndexModel → Action Db (Unit {0})

abbrev pub contains : List String → String → Bool
contains names name = any (λ n. n === name) names

module _ {Db : Type 0} (d : Database Db) (collection : String) where
  -- An index is created unless its name is among those that were read.
  unfoldable pub create_missing : List String → IndexModel → Action Db (Unit {0})
  create_missing index_names index db =
      if not (contains index_names index.name)
      then d.create_index collection index db
      else (db, Result.ok tt)

abbrev pub names_of : List IndexModel → List String
names_of indexes = map (λ index. index.name) indexes

-- The indexes with one that may be missing.
abbrev pub with_index : IndexModel → List IndexModel → List IndexModel
with_index index indexes =
    if contains (names_of indexes) index.name then indexes else indexes ++ (index ∷ [])

-- What the database documents of these calls, where `indexes` are those of a collection: creating the
-- collection changes none of them, their names are listed, and an index is added if one is created
-- of a name that is not there; creating it again would succeed and add nothing.
pub record Documented {Db : Type 0} (d : Database Db) (collection : String)
    (indexes : Db → List IndexModel) : Type 0 where
  pub create_collection_keeps :
      (db : Db) → indexes (d.create_collection collection db).0 ≡ indexes db
  pub list_keeps : (db : Db) → indexes (d.list_index_names collection db).0 ≡ indexes db
  pub list_names :
      (db : Db) (names : List String)
      → (d.list_index_names collection db).1 ≡ Result.ok names
      → names ≡ names_of (indexes db)
  pub create_index_adds :
      (db : Db) (index : IndexModel)
      → contains (names_of (indexes db)) index.name ≡ false
      → (d.create_index collection index db).1 ≡ Result.ok tt
      → indexes (d.create_index collection index db).0 ≡ indexes db ++ (index ∷ [])

-- What holds after the rest of a chain, from each value with which a call may have succeeded.
pub next-elim :
    {Db A B : Type 0} (P : Db → Type 0) (f : A → Action Db B) (r : Db × Result A DriverError)
    (b : B)
    → (next f r).1 ≡ Result.ok b
    → ((a : A) → r.1 ≡ Result.ok a → (f a r.0).1 ≡ Result.ok b → P (f a r.0).0)
    → P (next f r).0
next-elim P f (db, Result.ok a) b h after = after a refl h
next-elim P f (db, Result.err e) b h after = cc

contains-append :
    (names more : List String) (name : String)
    → contains (names ++ more) name ≡ (if contains names name then true else contains more name)
contains-append [] more name = refl
contains-append (n ∷ names) more name = elim (Bool-cases (n === name)) [
  | inl same ↦ rw same refl
  | inr other ↦ rw (other, contains-append names more name) refl
]

names_of-append :
    (indexes more : List IndexModel)
    → names_of (indexes ++ more) ≡ names_of indexes ++ names_of more
names_of-append [] more = refl
names_of-append (index ∷ indexes) more = rw (names_of-append indexes more) refl

-- An index that was added is there.
pub with_index-contains :
    (index : IndexModel) (indexes : List IndexModel)
    → contains (names_of (with_index index indexes)) index.name ≡ true
with_index-contains index indexes = elim (Bool-cases (contains (names_of indexes) index.name)) [
  | inl there ↦ rw (there, there) refl
  | inr missing ↦
      rw
        (
          missing,
          names_of-append indexes (index ∷ []),
          contains-append (names_of indexes) (index.name ∷ []) index.name,
          missing,
          eq_refl index.name,
        )
        refl
]

pub with_index_again :
    (index : IndexModel) (indexes : List IndexModel)
    → with_index index (with_index index indexes) ≡ with_index index indexes
with_index_again index indexes = rw (with_index-contains index indexes) refl

-- Adding another index does not hide or show a name.
pub with_index-other :
    (index : IndexModel) (indexes : List IndexModel) (name : String)
    → (index.name === name) ≡ false
    → contains (names_of (with_index index indexes)) name ≡ contains (names_of indexes) name
with_index-other index indexes name other =
    elim (Bool-cases (contains (names_of indexes) index.name)) [
      | inl there ↦ rw there refl
      | inr missing ↦
          rw
            (
              missing,
              names_of-append indexes (index ∷ []),
              contains-append (names_of indexes) (index.name ∷ []) name,
              other,
            )
            (elim (Bool-cases (contains (names_of indexes) name)) [
              | inl found ↦ rw found refl
              | inr hidden ↦ rw hidden refl
            ])
    ]

module _ {Db : Type 0} (d : Database Db) (collection : String) (indexes : Db → List IndexModel)
    (documented : Documented d collection indexes) where
  pub create_missing-with_index :
      (names : List String) (index : IndexModel) (db : Db)
      → contains names index.name ≡ contains (names_of (indexes db)) index.name
      → (create_missing d collection names index db).1 ≡ Result.ok tt
      → indexes (create_missing d collection names index db).0 ≡ with_index index (indexes db)
  unfolding create_missing
  create_missing-with_index names index db same h =
      elim (Bool-cases (contains (names_of (indexes db)) index.name)) [
        | inl there ↦ rw (same, there) refl
        | inr missing ↦
            let listed : contains names index.name ≡ false = same ∙ missing in
            let created : (d.create_index collection index db).1 ≡ Result.ok tt = cc in
            rw (listed, missing) (documented.create_index_adds db index missing created)
      ]

  -- Both repositories begin so: what follows may rely on the names of the indexes that there are.
  pub opened-elim :
      (P : Db → Type 0) (k : List String → Action Db (Unit {0})) (db : Db)
      → ((d.create_collection collection >> (d.list_index_names collection >>= k)) db).1
        ≡ Result.ok tt
      → ((after : Db)
          → indexes after ≡ indexes db
          → (k (names_of (indexes db)) after).1 ≡ Result.ok tt
          → P (k (names_of (indexes db)) after).0)
      → P ((d.create_collection collection >> (d.list_index_names collection >>= k)) db).0
  opened-elim P k db h after =
      let created = d.create_collection collection db in
      let listed = d.list_index_names collection created.0 in
      let kept = documented.create_collection_keeps db in
      next-elim P (λ u. d.list_index_names collection >>= k) created tt h
        λ u. λ is_created. λ h1. next-elim P k listed tt h1 λ names. λ is_listed. λ h2.
          let same : names ≡ names_of (indexes db) =
            documented.list_names created.0 names is_listed ∙ ap names_of kept in
          rw same (
            after listed.0 (documented.list_keeps created.0 ∙ kept)
              (subst (λ n. (k n listed.0).1 ≡ Result.ok tt) same h2))
