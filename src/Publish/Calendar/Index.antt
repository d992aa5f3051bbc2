-- ===== src/Publish/Calendar/Index.antt =====
-- The index of an account stays sorted, and what `nearest` finds in it.
use clipper_ai.Base.{
  ℕ, ◌≤◌, String, ◌≡◌, refl, Option, none, some, List, [], ◌∷◌, arith, All, inl, inr, leb,
  Bool-cases, Option-cases,
}
use clipper_ai.Base.Dict.{Dict, lookup, insert}
use clipper_ai.Publish.Types.{ScheduledPost}
use clipper_ai.Publish.Calendar.{
  Calendar, or_no_posts, drop_from, put, insort, pop_post, index_of, remove, add, move,
}

-- No post stands behind a later one.
abbrev pub IsSortedIndex : List ScheduledPost → Type 0
IsSortedIndex [] = Unit
IsSortedIndex (p ∷ index) = All (λ q. p.run_at ≤ q.run_at) index × IsSortedIndex index

abbrev AllFrom : ℕ → List ScheduledPost → Type 0
AllFrom t index = All (λ q. t ≤ q.run_at) index

AllFrom-insort :
    (t : ℕ) (p : ScheduledPost) (index : List ScheduledPost)
    → t ≤ p.run_at
    → AllFrom t index
    → AllFrom t (insort p index)
unfolding insort
AllFrom-insort t p [] l h = (l, tt)
AllFrom-insort t p (q ∷ index) l h = ground (arith, AllFrom-insort t p index l h.1)

AllFrom-le : (t u : ℕ) (index : List ScheduledPost) → t ≤ u → AllFrom u index → AllFrom t index
AllFrom-le t u [] l h = tt
AllFrom-le t u (q ∷ index) l h = (omega (arith, h.0, l), AllFrom-le t u index l h.1)

AllFrom-pop_post :
    (t : ℕ) (id : String) (index : List ScheduledPost)
    → AllFrom t index
    → AllFrom t (pop_post id index)
unfolding pop_post
AllFrom-pop_post t id [] h = tt
AllFrom-pop_post t id (q ∷ index) h = ground (arith, AllFrom-pop_post t id index h.1)

insort-IsSortedIndex :
    (p : ScheduledPost) (index : List ScheduledPost)
    → IsSortedIndex index
    → IsSortedIndex (insort p index)
unfolding insort
insort-IsSortedIndex p [] h = (tt, tt)
insort-IsSortedIndex p (q ∷ index) h = elim (Bool-cases (leb q.run_at p.run_at)) [
  | inl e ↦
      rw e
        (AllFrom-insort q.run_at p index (ground (arith, e)) h.0, insort-IsSortedIndex p index h.1)
  | inr e ↦
      let l : p.run_at ≤ q.run_at = ground (arith, e) in
      rw e ((l, AllFrom-le p.run_at q.run_at index l h.0), h)
]

pop_post-IsSortedIndex :
    (id : String) (index : List ScheduledPost)
    → IsSortedIndex index
    → IsSortedIndex (pop_post id index)
unfolding pop_post
pop_post-IsSortedIndex id [] h = tt
pop_post-IsSortedIndex id (q ∷ index) h =
    ground (arith, AllFrom-pop_post q.run_at id index h.0, pop_post-IsSortedIndex id index h.1)

-- Every index of the calendar is sorted.
abbrev pub AreSorted : Dict (List ScheduledPost) → Type 0
AreSorted [] = Unit
AreSorted ((_, index) ∷ indices) = IsSortedIndex index × AreSorted indices

insert-AreSorted :
    (account : String) (index : List ScheduledPost) (indices : Dict (List ScheduledPost))
    → IsSortedIndex index
    → AreSorted indices
    → AreSorted (insert account index indices)
unfolding insert
insert-AreSorted account index [] s h = (s, tt)
insert-AreSorted account index ((j, other) ∷ indices) s h =
    ground (arith, insert-AreSorted account index indices s h.1)

lookup-AreSorted :
    (account : String) (index : List ScheduledPost) (indices : Dict (List ScheduledPost))
    → lookup account indices ≡ some index
    → AreSorted indices
    → IsSortedIndex index
unfolding lookup
lookup-AreSorted account index [] e h = cc
lookup-AreSorted account index ((j, other) ∷ indices) e h =
    ground (arith, lookup-AreSorted account index indices)

module _ (c : Calendar) where
  pub index_of-IsSortedIndex :
      (account : String) → AreSorted c.by_account → IsSortedIndex (index_of account c)
  index_of-IsSortedIndex account h = go (lookup account c.by_account) refl
    where
      go :
          (o : Option (List ScheduledPost))
          → lookup account c.by_account ≡ o
          → IsSortedIndex (or_no_posts o)
      go none e = tt
      go (some index) e = lookup-AreSorted account index c.by_account e h

  drop_from-AreSorted :
      (account id : String) (o : Option (List ScheduledPost))
      → lookup account c.by_account ≡ o
      → AreSorted c.by_account
      → AreSorted (drop_from account id o c.by_account)
  drop_from-AreSorted account id none e h = h
  drop_from-AreSorted account id (some index) e h =
      insert-AreSorted account (pop_post id index) c.by_account
        (pop_post-IsSortedIndex id index (lookup-AreSorted account index c.by_account e h)) h

  pub remove-AreSorted : (id : String) → AreSorted c.by_account → AreSorted (remove id c).by_account
  unfolding remove
  remove-AreSorted id h = elim (Option-cases (lookup id c.held)) [
    | inl e ↦ rw e h
    | inr (p, e) ↦ rw e (drop_from-AreSorted p.account_id id _ refl h)
  ]

  put-AreSorted : (p : ScheduledPost) → AreSorted c.by_account → AreSorted (put p c).by_account
  put-AreSorted p h =
      insert-AreSorted p.account_id (insort p (index_of p.account_id c)) c.by_account
        (insort-IsSortedIndex p (index_of p.account_id c) (index_of-IsSortedIndex p.account_id h)) h

pub add-AreSorted :
    (c : Calendar) (p : ScheduledPost) → AreSorted c.by_account → AreSorted (add p c).by_account
unfolding add
add-AreSorted c p h = put-AreSorted (remove p.post_id c) p (remove-AreSorted c p.post_id h)

-- A change of the membership or the time of a post.
pub data Edit : Type 0 where
  add_post : ScheduledPost → Edit
  remove_post : String → Edit
  move_post : String → ℕ → Edit

abbrev pub or_same : Calendar → Option Calendar → Calendar
or_same c none = c
or_same c (some d) = d

unfoldable pub edit : Edit → Calendar → Calendar
edit (add_post p) c = add p c
edit (remove_post id) c = remove id c
edit (move_post id t) c = or_same c (move id t c)

unfoldable pub edit_all : List Edit → Calendar → Calendar
edit_all [] c = c
edit_all (e ∷ es) c = edit_all es (edit e c)

edit-AreSorted :
    (e : Edit) (c : Calendar) → AreSorted c.by_account → AreSorted (edit e c).by_account
unfolding edit move
edit-AreSorted (add_post p) c h = add-AreSorted c p h
edit-AreSorted (remove_post id) c h = remove-AreSorted c id h
edit-AreSorted (move_post id t) c h = elim (Option-cases (lookup id c.held)) [
  | inl e ↦ rw e h
  | inr (p, e) ↦ rw e (
      add-AreSorted (remove p.post_id c) (record p { run_at = t }) (remove-AreSorted c p.post_id h))
]

-- However posts are added, removed, replaced and moved, the index of every account stays in the
-- order of time, which its searches rely on.
pub AreSorted-edit_all :
    (es : List Edit) (c : Calendar) → AreSorted c.by_account → AreSorted (edit_all es c).by_account
unfolding edit_all
AreSorted-edit_all [] c h = h
AreSorted-edit_all (e ∷ es) c h = AreSorted-edit_all es (edit e c) (edit-AreSorted e c h)
