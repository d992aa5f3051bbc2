-- ===== src/Store/Unit/Atomic.antt =====
-- A unit of work that is abandoned leaves the store as it found it.
use clipper_ai.Base.{
  String, ◌≡◌, refl, ap, fun_ext, inl, inr, true, false, ◌||◌, none, [], ◌∷◌, ◌==◌, eq_iff, arith,
  Bool-cases, Option-cases, All, Result, ok, err, raised, Keeps,
}
use clipper_ai.Base.Dict.{Dict, lookup, insert, lookup-insert}
use clipper_ai.Store.Unit.{
  StoreError, Tables, UnitOfWork, Action, update, touch_state, writable, write, write_state,
  no_tenant, restore_tables, restore, rollback, exit, leave, transaction,
}

module _ {Row : Type 0} (orig : Tables Row) where
  -- `undo` holds the contents that `orig` has, and a table that is not in it has not changed.
  pub record IsTracked (u : UnitOfWork Row) : Type 0 where
    pub saved : All (λ (e : String × Dict Row). e.1 ≡ orig e.0) u.undo
    pub untouched : (name : String) → lookup name u.undo ≡ none → u.tables name ≡ orig name

  insert-saved :
      (name : String) (rows : Dict Row) (d : Dict (Dict Row))
      → rows ≡ orig name
      → All (λ (e : String × Dict Row). e.1 ≡ orig e.0) d
      → All (λ (e : String × Dict Row). e.1 ≡ orig e.0) (insert name rows d)
  unfolding insert
  insert-saved name rows [] e h = (e, tt)
  insert-saved name rows ((j, w) ∷ d) e h = elim (Bool-cases (j == name)) [
    | inl p ↦ rw p (rw ((eq_iff j name).0 p) e, h.1)
    | inr p ↦ rw p (h.0, insert-saved name rows d e h.1)
  ]

  pub touch_state-IsTracked :
      (name : String) (u : UnitOfWork Row) → IsTracked u → IsTracked (touch_state name u)
  unfolding touch_state
  touch_state-IsTracked name u h = elim (Option-cases (lookup name u.undo)) [
    | inl e ↦ rw e (record {
      saved = insert-saved name (u.tables name) u.undo (h.untouched name e) h.saved;
      untouched =
          λ j k. h.untouched j (ground (arith, lookup-insert name j (u.tables name) u.undo));
    })
    | inr (d, e) ↦ rw e h
  ]

  lookup-touch_state :
      (name j : String) (u : UnitOfWork Row)
      → lookup j (touch_state name u).undo ≡ none
      → ((name == j) ≡ false) × (lookup j u.undo ≡ none)
  unfolding touch_state
  lookup-touch_state name j u e = elim (Option-cases (lookup name u.undo)) [
    | inl h ↦ ground (arith, eq_iff name j, lookup-insert name j (u.tables name) u.undo)
    | inr (d, h) ↦ ground (arith, eq_iff name j)
  ]

  -- After `_touch` the table may be written.
  pub write_state-IsTracked :
      (name : String) (f : Dict Row → Dict Row) (u : UnitOfWork Row)
      → IsTracked u
      → IsTracked (write_state name f u)
  unfolding write_state
  write_state-IsTracked name f u h =
      let k = touch_state-IsTracked name u h in
      record {
        saved = k.saved;
        untouched = λ j e. rw ((lookup-touch_state name j u e).0) (k.untouched j e);
      }

  restore_tables-eq :
      (d : Dict (Dict Row)) (t : Tables Row)
      → All (λ (e : String × Dict Row). e.1 ≡ orig e.0) d
      → ((name : String) → lookup name d ≡ none → t name ≡ orig name)
      → (name : String) → restore_tables d t name ≡ orig name
  unfolding restore_tables lookup
  restore_tables-eq [] t s n name = n name refl
  restore_tables-eq ((j, rows) ∷ d) t s n name =
      restore_tables-eq d (update t j rows) s.1 (λ i e. ground (arith, eq_iff j i, n i, s.0)) name

  pub restore-eq : (u : UnitOfWork Row) → IsTracked u → (restore u).tables ≡ orig
  unfolding restore
  restore-eq u h = fun_ext (restore_tables-eq u.undo u.tables h.saved h.untouched)

  pub Keeps-write : (name : String) (f : Dict Row → Dict Row) → Keeps IsTracked (write name f)
  Keeps-write name f = record { at = write_state-IsTracked name f }

  pub Keeps-writable : Keeps IsTracked writable
  Keeps-writable = record { at = λ u h. h }

  pub Keeps-rollback : Keeps IsTracked rollback
  unfolding rollback restore restore_tables lookup
  Keeps-rollback = record {
    at = λ u h. record {
      saved = tt;
      untouched = λ name e. ap (λ (t : Tables Row). t name) (restore-eq u h);
    };
  }

  closed_IsTracked : (u : UnitOfWork Row) → IsTracked u → IsTracked (record u { is_open = false })
  closed_IsTracked u h = record { saved = h.saved; untouched = h.untouched }

  leave-IsAtomic :
      {A : Type 0} (p : Result StoreError A × UnitOfWork Row)
      → IsTracked p.1
      → (raised (leave p).0 || p.1.rolled_back) ≡ true
      → (leave p).1 ≡ orig
  unfolding leave exit
  leave-IsAtomic (err e, u) h f = restore-eq (record u { is_open = false }) (closed_IsTracked u h)
  leave-IsAtomic (ok a, u) h f =
      rw f (restore-eq (record u { is_open = false }) (closed_IsTracked u h))

abbrev pub fresh : {Row : Type 0} → String → Tables Row → UnitOfWork Row
fresh tenant t = record {
  tenant_id = tenant;
  tables = t;
  undo = [];
  is_open = true;
  rolled_back = false;
}

pub IsTracked-fresh :
    {Row : Type 0} (tenant : String) (t : Tables Row) → IsTracked t (fresh tenant t)
unfolding lookup
IsTracked-fresh tenant t = record { saved = tt; untouched = λ name e. refl }

module _ {Row A : Type 0} (tenant : String) (body : Action Row A) (t : Tables Row) where
  -- A transaction runs its body on a unit of work that has stashed nothing.
  pub transaction_lem :
      (tenant == "") ≡ false → transaction tenant body t ≡ leave (body (fresh tenant t))
  unfolding transaction
  transaction_lem e = rw e

  pub transaction_no_tenant : (tenant == "") ≡ true → transaction tenant body t ≡ (err no_tenant, t)
  unfolding transaction
  transaction_no_tenant e = rw e

  -- If the body raises or calls `rollback`, whatever it has written by then, the tables are what
  -- they were before.
  pub transaction_atomic :
      IsTracked t (body (fresh tenant t)).1
      → (raised (transaction tenant body t).0 || (body (fresh tenant t)).1.rolled_back) ≡ true
      → (transaction tenant body t).1 ≡ t
  transaction_atomic k f = elim (Bool-cases (tenant == "")) [
    | inl e ↦ ap (λ (r : Result StoreError A × Tables Row). r.1) (transaction_no_tenant e)
    | inr e ↦
        rw (transaction_lem e)
          (leave-IsAtomic t (body (fresh tenant t)) k (rw (transaction_lem e) at f))
  ]
