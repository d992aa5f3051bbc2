-- ===== src/Store/Repository/Isolation.antt =====
-- Nothing that a repository does under one tenant touches the rows of another.
use clipper_ai.Base.{
  ℕ, String, ◌≡◌, refl, ◌∙◌, true, false, not, Option, none, some, List, [], ◌∷◌, ◌==◌, arith,
  Option-cases, inl, inr, filter,
}
use clipper_ai.Base.Dict.{Dict, lookup, insert, erase}
use clipper_ai.Store.Unit.{UnitOfWork, write_state, tables-write_state, tenant_id-write_state}
use clipper_ai.Store.Repository.{Schema, IsSchema, rows, stamp, add, save, delete}
use clipper_ai.Store.Repository.Laws.{tenant-stamp}

module _ {Row : Type 0} (s : Schema Row) where
  -- The rows of every tenant but `t`, in their order.
  abbrev pub others : String → Dict Row → Dict Row
  others t d = filter (λ (e : String × Row). not (s.tenant e.1 == t)) d

  -- A row that `t` may replace: its own, or none.
  abbrev pub IsOwn : String → Option Row → Type 0
  IsOwn t none = Unit
  IsOwn t (some q) = (s.tenant q == t) ≡ true

  pub others-insert :
      (t k : String) (r : Row) (d : Dict Row)
      → (s.tenant r == t) ≡ true
      → IsOwn t (lookup k d)
      → others t (insert k r d) ≡ others t d
  unfolding lookup insert
  others-insert t k r [] e h = ground arith
  others-insert t k r ((j, q) ∷ d) e h = ground (arith, others-insert t k r d)

  pub others-erase :
      (t k : String) (d : Dict Row) → IsOwn t (lookup k d) → others t (erase k d) ≡ others t d
  unfolding lookup erase
  others-erase t k [] h = refl
  others-erase t k ((j, q) ∷ d) h = ground (arith, others-erase t k d)

  -- The unit of work is `t`'s, and the rows of the others are those of `d`.
  pub record IsIsolated (t : String) (d : Dict Row) (u : UnitOfWork Row) : Type 0 where
    pub same_tenant : u.tenant_id ≡ t
    pub same_others : others t (rows s u) ≡ others t d

  pub insert-IsIsolated :
      (t k : String) (r : Row) (d : Dict Row) (u : UnitOfWork Row)
      → (s.tenant r == t) ≡ true
      → IsOwn t (lookup k (rows s u))
      → IsIsolated t d u
      → IsIsolated t d (write_state s.name (insert k r) u)
  insert-IsIsolated t k r d u e own h = record {
    same_tenant = tenant_id-write_state s.name (insert k r) u ∙ h.same_tenant;
    same_others =
        rw (tables-write_state s.name (insert k r) u)
          (others-insert t k r (rows s u) e own ∙ h.same_others);
  }

  insert_new :
      (t k : String) (r : Row) (d : Dict Row) (u : UnitOfWork Row)
      → (s.tenant r == t) ≡ true
      → lookup k (rows s u) ≡ none
      → IsIsolated t d u
      → IsIsolated t d (write_state s.name (insert k r) u)
  insert_new t k r d u e own = insert-IsIsolated t k r d u e (rw own tt)

  insert_held :
      (t k : String) (q r : Row) (d : Dict Row) (u : UnitOfWork Row)
      → (s.tenant r == t) ≡ true
      → lookup k (rows s u) ≡ some q
      → (s.tenant q == t) ≡ true
      → IsIsolated t d u
      → IsIsolated t d (write_state s.name (insert k r) u)
  insert_held t k q r d u e own f = insert-IsIsolated t k r d u e (rw own f)

  pub erase-IsIsolated :
      (t k : String) (d : Dict Row) (u : UnitOfWork Row)
      → IsOwn t (lookup k (rows s u))
      → IsIsolated t d u
      → IsIsolated t d (write_state s.name (erase k) u)
  erase-IsIsolated t k d u own h = record {
    same_tenant = tenant_id-write_state s.name (erase k) u ∙ h.same_tenant;
    same_others =
        rw (tables-write_state s.name (erase k) u)
          (others-erase t k (rows s u) own ∙ h.same_others);
  }

  erase_held :
      (t k : String) (q : Row) (d : Dict Row) (u : UnitOfWork Row)
      → lookup k (rows s u) ≡ some q
      → (s.tenant q == t) ≡ true
      → IsIsolated t d u
      → IsIsolated t d (write_state s.name (erase k) u)
  erase_held t k q d u own f = erase-IsIsolated t k d u (rw own f)

  pub add-IsIsolated :
      IsSchema s
      → (t : String) (d : Dict Row) (now : ℕ) (r : Row) (u : UnitOfWork Row) → IsIsolated t d u
      → IsIsolated t d (add s now r u).1
  unfolding add
  add-IsIsolated o t d now r u h = elim (Option-cases (lookup (s.key r) (rows s u))) [
    | inl e ↦
        ground
          (arith, e, tenant-stamp s o now true r, insert_new t (s.key r) (stamp s now true r) d u)
    | inr (q, e) ↦ ground (arith, e)
  ]

  pub save-IsIsolated :
      IsSchema s
      → (t : String) (d : Dict Row) (now : ℕ) (r : Row) (u : UnitOfWork Row) → IsIsolated t d u
      → IsIsolated t d (save s now r u).1
  unfolding save
  save-IsIsolated o t d now r u h = elim (Option-cases (lookup (s.key r) (rows s u))) [
    | inl e ↦
        ground
          (arith, e, tenant-stamp s o now true r, insert_new t (s.key r) (stamp s now true r) d u)
    | inr (q, e) ↦ ground (
      arith,
      e,
      tenant-stamp s o now false r,
      o.tenant-copy_created q (stamp s now false r),
      insert_held t (s.key r) q (s.copy_created q (stamp s now false r)) d u,
    )
  ]

  pub delete-IsIsolated :
      (t : String) (d : Dict Row) (k : String) (u : UnitOfWork Row)
      → IsIsolated t d u
      → IsIsolated t d (delete s k u).1
  unfolding delete
  delete-IsIsolated t d k u h = elim (Option-cases (lookup k (rows s u))) [
    | inl e ↦ ground (arith, e)
    | inr (q, e) ↦ ground (arith, e, erase_held t k q d u)
  ]

-- One call of a repository; a call that raises ends only itself.
pub data Call (Row : Type 0) : Type 0 where
  add_row save_row : ℕ → Row → Call Row
  delete_row : String → Call Row

module _ {Row : Type 0} (s : Schema Row) where
  unfoldable pub run_call : Call Row → UnitOfWork Row → UnitOfWork Row
  run_call (add_row now r) u = (add s now r u).1
  run_call (save_row now r) u = (save s now r u).1
  run_call (delete_row k) u = (delete s k u).1

  unfoldable pub run_calls : List (Call Row) → UnitOfWork Row → UnitOfWork Row
  run_calls [] u = u
  run_calls (c ∷ cs) u = run_calls cs (run_call c u)

  run_call-IsIsolated :
      IsSchema s
      → (t : String) (d : Dict Row) (c : Call Row) (u : UnitOfWork Row) → IsIsolated s t d u
      → IsIsolated s t d (run_call c u)
  unfolding run_call
  run_call-IsIsolated o t d (add_row now r) u h = add-IsIsolated s o t d now r u h
  run_call-IsIsolated o t d (save_row now r) u h = save-IsIsolated s o t d now r u h
  run_call-IsIsolated o t d (delete_row k) u h = delete-IsIsolated s t d k u h

  run_calls-IsIsolated :
      IsSchema s
      → (t : String) (d : Dict Row) (cs : List (Call Row)) (u : UnitOfWork Row) → IsIsolated s t d u
      → IsIsolated s t d (run_calls cs u)
  unfolding run_calls
  run_calls-IsIsolated o t d [] u h = h
  run_calls-IsIsolated o t d (c ∷ cs) u h =
      run_calls-IsIsolated o t d cs (run_call c u) (run_call-IsIsolated o t d c u h)

  -- Whatever adds, saves and deletes a unit of work of one tenant makes, the rows of every other
  -- tenant are the same rows in the same order.
  pub tenant_isolation :
      IsSchema s
      → (cs : List (Call Row)) (u : UnitOfWork Row)
      → others s u.tenant_id (rows s (run_calls cs u)) ≡ others s u.tenant_id (rows s u)
  tenant_isolation o cs u =
      (run_calls-IsIsolated o u.tenant_id (rows s u) cs u
        (record { same_tenant = refl; same_others = refl })).same_others
