-- ===== src/Store/Repository.antt =====
-- `_MemoryRepository` of src/clipforge/store/memory.py, over a table that `Schema` describes
-- (`Table` of src/clipforge/store/schema.py). The clock that `_stamp` reads is the argument `now`.
pub mod Laws
pub mod Isolation
use clipper_ai.Base.{
  ℕ, String, ◌≡◌, Bool, true, false, not, Option, none, some, List, ◌==◌, if◌then◌else◌, is_some,
  filter, length, Exec, pure, gets, raise_if, ◌>>=◌, ◌>>◌, raise,
}
use clipper_ai.Base.Dict.{Dict, lookup, insert, erase, values}
use clipper_ai.Store.Unit.{
  StoreError, not_found, conflict, tenant_scope, UnitOfWork, Action, writable, write, write_state,
}

-- What the repository reads of a table: its name, its key and tenant columns, and the columns that
-- the database manages. A table that lacks such a column has the identity there.
pub record Schema (Row : Type 0) : Type 0 where
  pub name : String
  pub key : Row → String
  pub tenant : Row → String
  -- `record.created_at = now`
  pub set_created : ℕ → Row → Row
  -- `record.updated_at = now`
  pub set_updated : ℕ → Row → Row
  -- `stored.created_at = existing.created_at`, the existing row first
  pub copy_created : Row → Row → Row

-- The managed columns are neither the key nor the tenant.
pub record IsSchema {Row : Type 0} (s : Schema Row) : Type 0 where
  pub key-set_created : (n : ℕ) (r : Row) → s.key (s.set_created n r) ≡ s.key r
  pub key-set_updated : (n : ℕ) (r : Row) → s.key (s.set_updated n r) ≡ s.key r
  pub key-copy_created : (q r : Row) → s.key (s.copy_created q r) ≡ s.key r
  pub tenant-set_created : (n : ℕ) (r : Row) → s.tenant (s.set_created n r) ≡ s.tenant r
  pub tenant-set_updated : (n : ℕ) (r : Row) → s.tenant (s.set_updated n r) ≡ s.tenant r
  pub tenant-copy_created : (q r : Row) → s.tenant (s.copy_created q r) ≡ s.tenant r

module _ {Row : Type 0} (s : Schema Row) where
  -- `_rows`
  abbrev pub rows : UnitOfWork Row → Dict Row
  rows u = u.tables s.name

  -- `_scoped`
  unfoldable pub scoped : UnitOfWork Row → List Row
  scoped u = filter (λ r. s.tenant r == u.tenant_id) (values (rows u))

  -- `_check_tenant`
  abbrev pub check_tenant : Row → Action Row (Unit {0})
  check_tenant r u = raise_if (not (s.tenant r == u.tenant_id)) tenant_scope u

  -- `_stamp`
  unfoldable pub stamp : ℕ → Bool → Row → Row
  stamp now created r = s.set_updated now (if created then s.set_created now r else r)

  -- the row, if it is this tenant's
  abbrev pub visible : String → Option Row → Option Row
  visible tenant none = none
  visible tenant (some r) = if s.tenant r == tenant then some r else none

  unfoldable pub get : String → Action Row (Option Row)
  get key = gets (λ u. visible u.tenant_id (lookup key (rows u)))

  abbrev pub or_not_found : Option Row → Action Row Row
  or_not_found none = raise not_found
  or_not_found (some r) = pure r

  unfoldable pub require : String → Action Row Row
  unfolding get
  require key = do row ← get key; or_not_found row

  unfoldable pub add : ℕ → Row → Action Row Row
  add now r = do
    writable
    check_tenant r
    held ← gets (λ u. lookup (s.key r) (rows u))
    raise_if (is_some held) conflict
    let stored = stamp now true r
    write s.name (insert (s.key r) stored)
    pure stored

  -- `existing is not None and existing.tenant != tenant`
  abbrev pub is_foreign : String → Option Row → Bool
  is_foreign tenant none = false
  is_foreign tenant (some q) = not (s.tenant q == tenant)

  abbrev pub keep_created : Option Row → Row → Row
  keep_created none r = r
  keep_created (some q) r = s.copy_created q r

  unfoldable pub save : ℕ → Row → Action Row Row
  save now r = do
    writable
    check_tenant r
    existing ← gets (λ u. lookup (s.key r) (rows u))
    tenant ← gets (λ u. u.tenant_id)
    raise_if (is_foreign tenant existing) tenant_scope
    let stored = keep_created existing (stamp now (not (is_some existing)) r)
    write s.name (insert (s.key r) stored)
    pure stored

  abbrev pub delete_held : String → Option Row → Action Row Bool
  delete_held key none = pure false
  delete_held key (some _) = do write s.name (erase key); pure true

  unfoldable pub delete : String → Action Row Bool
  delete key = do
    writable
    held ← gets (λ u. visible u.tenant_id (lookup key (rows u)))
    delete_held key held

  unfoldable pub all : Action Row (List Row)
  all = gets scoped

  unfoldable pub count : Action Row ℕ
  count = gets (λ u. length (scoped u))
