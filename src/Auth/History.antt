-- ===== src/Auth/History.antt =====
-- Every flow of src/clipforge/auth/service.py and mfa.py as a call, and what becomes of a session.
pub mod Steps
pub mod Sessions
pub mod Flows
pub mod Accounts
pub mod Calls
use clipper_ai.Base.{
  ℕ, suc, ◌+◌, ◌≤◌, ◌≡◌, refl, sym, ap, ◌∙◌, subst, inl, inr, String, Bool, true, false, not, ◌&&◌,
  Option, none, some, List, [], ◌∷◌, ◌==◌, eq_iff, if◌then◌else◌, arith, Bool-cases, Option-cases,
  is_some, some_inj, Occurs, All, filter, Result, ok, err, Exec, pure, raise, gets, modify, ◌>>=◌,
  ◌>>◌, Keeps, Keeps-bind, Keeps-if, Keeps-raise, Keeps-pure,
}
use clipper_ai.Base.Dict.{
  Dict, lookup, insert, values, map_values, IsKeyed, insert-IsKeyed, lookup-insert, lookup-key,
  lookup_of_Occurs, lookup-map_values-some, lookup-map_values-none,
}
use clipper_ai.Base.Text.{◌⧺◌}
use clipper_ai.Auth.Types.{AuthError, Session, is_live}
use clipper_ai.Auth.Store.{
  AuthStore, find, save_session, revoked, revoke_held, revoke_sessions, is_open_for,
}
use clipper_ai.Auth.Core.{
  AuthService, Auth, World, read, update, update_with, draw, require, refuse,
}
use clipper_ai.Auth.Sessions.{rotate}

abbrev pub session_key : Session → String
session_key s = s.session_id

module _ (service : AuthService) where
  -- What may happen to a session: its token is rotated while it is live, or it is revoked once.
  pub data Step (s t : Session) : Type 0 where
    rotation :
        (now : ℕ) (token : String)
        → is_live now s ≡ true
        → t ≡ rotate service now token s
        → Step s t
    revocation :
        (now : ℕ) (reason : String) → s.revoked_at ≡ none → t ≡ revoked now reason s → Step s t

  pub data Evolves (s : Session) : Session → Type 0 where
    here : Evolves s s
    next : {t u : Session} → Evolves s t → Step t u → Evolves s u

  module _ (sid : String) (start : Session) where
    -- The session `sid` is in the store and has evolved from `start`; its id will not be drawn again.
    pub record IsFollowed (w : World) : Type 0 where
      pub keyed : IsKeyed session_key w.store.sessions
      pub unborn : (n : ℕ) → w.drawn ≤ n → (("ses_" ⧺ service.hex n) == sid) ≡ false
      pub row : Session
      pub is_row : lookup sid w.store.sessions ≡ some row
      pub evolved : Evolves start row

    -- A copy of a session that may be saved over `sid`.
    abbrev pub IsCopy : Session → Type 0
    IsCopy s = s.session_id ≡ sid → Evolves start s

    pub quiet :
        (w w' : World)
        → w'.store.sessions ≡ w.store.sessions
        → w.drawn ≤ w'.drawn
        → IsFollowed w
        → IsFollowed w'
    quiet w w' e l h = record {
      keyed = subst (IsKeyed session_key) (sym e) h.keyed;
      unborn = λ n k. h.unborn n (omega arith);
      row = h.row;
      is_row = ap (lookup sid) e ∙ h.is_row;
      evolved = h.evolved;
    }

    -- A change of the other tables.
    pub Keeps-update :
        (f : AuthStore → AuthStore)
        → ((s : AuthStore) → (f s).sessions ≡ s.sessions)
        → Keeps IsFollowed (update f)
    Keeps-update f e = record { at = λ w h. quiet w _ (e w.store) (omega arith) h }

    pub Keeps-update_with :
        {A : Type 0} (f : AuthStore → A × AuthStore)
        → ((s : AuthStore) → (f s).1.sessions ≡ s.sessions)
        → Keeps IsFollowed (update_with f)
    Keeps-update_with f e = record { at = λ w h. quiet w _ (e w.store) (omega arith) h }

    pub Keeps-read : {A : Type 0} (f : AuthStore → A) → Keeps IsFollowed (read f)
    Keeps-read f = record { at = λ w h. h }

    pub Keeps-draw : {A : Type 0} (f : ℕ → A) → Keeps IsFollowed (draw f)
    Keeps-draw f = record { at = λ w h. quiet w _ refl (omega arith) h }

    pub Keeps-require : {A : Type 0} (e : AuthError) (o : Option A) → Keeps IsFollowed (require e o)
    Keeps-require e none = record { at = λ w h. h }
    Keeps-require e (some a) = record { at = λ w h. h }

    pub Keeps-refuse :
        {A : Type 0} (e : A → AuthError) (o : Option A) → Keeps IsFollowed (refuse e o)
    Keeps-refuse e none = record { at = λ w h. h }
    Keeps-refuse e (some a) = record { at = λ w h. h }

    -- What is read of the state may be used in the rest.
    pub Keeps-with_read :
        {A B : Type 0} (f : AuthStore → A) (rest : A → Auth B)
        → ((w : World) → IsFollowed w → Keeps IsFollowed (rest (f w.store)))
        → Keeps IsFollowed (read f >>= rest)
    Keeps-with_read f rest k = record { at = λ w h. (k w h).at w h }

    -- An id that is drawn is not `sid`.
    pub Keeps-with_hex :
        {B : Type 0} (rest : String → Auth B)
        → ((hex : String) → (("ses_" ⧺ hex) == sid) ≡ false → Keeps IsFollowed (rest hex))
        → Keeps IsFollowed (draw service.hex >>= rest)
    Keeps-with_hex rest k = record {
      at = λ w h.
          (k (service.hex w.drawn) (h.unborn w.drawn (omega arith))).at _
            (quiet w (record w { drawn = w.drawn + 1 }) refl (omega arith) h);
    }

    -- Saving a session that is new, or that is the next of a copy.
    pub Keeps-save :
        (t : Session)
        → (t.session_id ≡ sid → Evolves start t)
        → Keeps IsFollowed (update (save_session t))
    Keeps-save t k = record {
      at = λ w h. elim (Bool-cases (t.session_id == sid)) [
        | inl same ↦ record {
          keyed = insert-IsKeyed session_key _ t w.store.sessions refl h.keyed;
          unborn = h.unborn;
          row = t;
          is_row = ground (arith, same, lookup-insert t.session_id sid t w.store.sessions);
          evolved = k ((eq_iff t.session_id sid).0 same);
        }
        | inr other ↦ record {
          keyed = insert-IsKeyed session_key _ t w.store.sessions refl h.keyed;
          unborn = h.unborn;
          row = h.row;
          is_row =
              ground (arith, other, h.is_row, lookup-insert t.session_id sid t w.store.sessions);
          evolved = h.evolved;
        }
      ];
    }

    IsKeyed-revoke :
        (id : String) (now : ℕ) (reason : String) (d : Dict Session)
        → IsKeyed session_key d
        → IsKeyed session_key (map_values (revoke_held id now reason) d)
    unfolding map_values
    IsKeyed-revoke id now reason [] h = tt
    IsKeyed-revoke id now reason ((k, v) ∷ d) h = (
      lookup-map_values-none (revoke_held id now reason) k d h.0,
      ground (arith, h.1),
      IsKeyed-revoke id now reason d h.2,
    )

    Evolves-revoke_held :
        (id : String) (now : ℕ) (reason : String) (t : Session)
        → Evolves start t
        → Evolves start (revoke_held id now reason t)
    Evolves-revoke_held id now reason t e = elim (Bool-cases (is_open_for id t)) [
      | inl b ↦
          rw b (next e (revocation now reason (ground (arith, b, Option-cases t.revoked_at)) refl))
      | inr b ↦ rw b e
    ]

    pub Keeps-revoke_sessions :
        (id : String) (now : ℕ) (reason : String)
        → Keeps IsFollowed (update_with (revoke_sessions id now reason))
    unfolding revoke_sessions
    Keeps-revoke_sessions id now reason = record {
      at = λ w h. record {
        keyed = IsKeyed-revoke id now reason w.store.sessions h.keyed;
        unborn = h.unborn;
        row = revoke_held id now reason h.row;
        is_row =
            lookup-map_values-some (revoke_held id now reason) sid h.row w.store.sessions h.is_row;
        evolved = Evolves-revoke_held id now reason h.row h.evolved;
      };
    }

    -- Every session of the store is a copy.
    pub IsCopy-of_Occurs :
        (w : World) → IsFollowed w → (s : Session) → Occurs s (values w.store.sessions) → IsCopy s
    IsCopy-of_Occurs w h s m e =
        let found = lookup_of_Occurs session_key s w.store.sessions h.keyed m in
        subst (λ t. Evolves start t)
          (some_inj (sym h.is_row ∙ subst (λ k. lookup k w.store.sessions ≡ some s) e found))
          h.evolved
