-- ===== src/Store/Unit.antt =====
-- `_Store` and `MemoryUnitOfWork` of src/clipforge/store/memory.py, and the exceptions of
-- src/clipforge/store/errors.py. A row is a value, so a deep copy of one is the row itself, and a
-- caller that changes its copy has changed nothing here. The record class of the rows is the
-- parameter `Row`.
pub mod Atomic
use clipper_ai.Base.{
  String, ◌≡◌, Bool, true, false, ◌||◌, Option, none, some, List, [], ◌∷◌, ◌==◌, if◌then◌else◌,
  arith, eq_iff, is_some, Result, ok, err, raised, Exec, raise_if,
}
use clipper_ai.Base.Dict.{Dict, lookup, insert}

pub data StoreError : Type 0 where
  -- `NotFound`, `Conflict`, `TenantScopeError`
  not_found conflict tenant_scope : StoreError
  -- `RuntimeError("this unit of work was rolled back")`
  was_rolled_back : StoreError
  -- `RuntimeError("unit of work is not re-entrant")`
  not_reentrant : StoreError
  -- `ValueError("a unit of work needs a tenant")`
  no_tenant : StoreError

-- `_Store.tables`: the rows of each table by their key.
abbrev pub Tables : Type 0 → Type 0
Tables Row = String → Dict Row

pub record UnitOfWork (Row : Type 0) : Type 0 where
  pub tenant_id : String
  -- `_store.tables`
  pub tables : Tables Row
  pub undo : Dict (Dict Row)
  pub is_open : Bool
  pub rolled_back : Bool

abbrev pub Action : Type 0 → Type 0 → Type 0
Action Row A = Exec StoreError (UnitOfWork Row) A

module _ {Row : Type 0} where
  -- `tables[name] = rows`
  abbrev pub update : Tables Row → String → Dict Row → Tables Row
  update t name rows j = if name == j then rows else t j

  -- `MemoryUnitOfWork.__init__`
  unfoldable pub unit_of_work : String → Tables Row → Result StoreError (UnitOfWork Row)
  unit_of_work tenant t =
      if tenant == ""
      then err no_tenant
      else ok (record {
        tenant_id = tenant;
        tables = t;
        undo = [];
        is_open = false;
        rolled_back = false;
      })

  -- `_touch`: the first write to a table stashes its previous contents
  unfoldable pub touch_state : String → UnitOfWork Row → UnitOfWork Row
  touch_state name u =
      if is_some (lookup name u.undo)
      then u
      else record u { undo = insert name (u.tables name) u.undo }

  -- `_touch`, then an assignment to the rows of the table
  unfoldable pub write_state : String → (Dict Row → Dict Row) → UnitOfWork Row → UnitOfWork Row
  unfolding touch_state
  write_state name f u =
      let u' = touch_state name u in
      record u' { tables = update u'.tables name (f (u'.tables name)) }

  abbrev pub write : String → (Dict Row → Dict Row) → Action Row (Unit {0})
  write name f u = (ok tt, write_state name f u)

  -- `_writable`
  abbrev pub writable : Action Row (Unit {0})
  writable u = raise_if u.rolled_back was_rolled_back u

  -- the loop of `_restore` over `_undo.items()`
  unfoldable pub restore_tables : Dict (Dict Row) → Tables Row → Tables Row
  restore_tables [] t = t
  restore_tables ((name, rows) ∷ rest) t = restore_tables rest (update t name rows)

  -- `_restore`
  unfoldable pub restore : UnitOfWork Row → UnitOfWork Row
  restore u = record u { tables = restore_tables u.undo u.tables; undo = [] }

  -- `rollback`
  unfoldable pub rollback : Action Row (Unit {0})
  unfolding restore
  rollback u = (ok tt, record (restore u) { rolled_back = true })

  -- `__enter__`
  unfoldable pub enter : Action Row (Unit {0})
  enter u = if u.is_open then (err not_reentrant, u) else (ok tt, record u { is_open = true })

  -- `__exit__`
  unfoldable pub exit : Bool → UnitOfWork Row → UnitOfWork Row
  unfolding restore
  exit failed u =
      let u' = record u { is_open = false } in
      let u'' = if failed || u'.rolled_back then restore u' else u' in record u'' { undo = [] }

  -- the body of the `with` block, left by `__exit__` on either path
  unfoldable pub leave :
      {A : Type 0} → Result StoreError A × UnitOfWork Row → Result StoreError A × Tables Row
  leave (r, u) = (r, (exit (raised r) u).tables)

  abbrev pub run_block :
      {A : Type 0}
      → Action Row A
      → Result StoreError (Unit {0}) × UnitOfWork Row
      → Result StoreError A × Tables Row
  run_block body (err e, u) = (err e, u.tables)
  run_block body (ok _, u) = leave (body u)

  abbrev pub open_block :
      {A : Type 0}
      → Action Row A
      → Tables Row
      → Result StoreError (UnitOfWork Row)
      → Result StoreError A × Tables Row
  open_block body t (err e) = (err e, t)
  open_block body t (ok u) = run_block body (enter u)

  -- `with database.unit_of_work(tenant) as uow: body`
  unfoldable pub transaction :
      {A : Type 0} → String → Action Row A → Tables Row → Result StoreError A × Tables Row
  unfolding unit_of_work enter
  transaction tenant body t = open_block body t (unit_of_work tenant t)

module _ {Row : Type 0} (name : String) (f : Dict Row → Dict Row) (u : UnitOfWork Row) where
  pub tables-write_state : (write_state name f u).tables name ≡ f (u.tables name)
  unfolding write_state
  tables-write_state = ground (arith, eq_iff name name)

  pub tenant_id-write_state : (write_state name f u).tenant_id ≡ u.tenant_id
  unfolding write_state
  tenant_id-write_state = ground arith

  pub rolled_back-write_state : (write_state name f u).rolled_back ≡ u.rolled_back
  unfolding write_state
  rolled_back-write_state = ground arith
