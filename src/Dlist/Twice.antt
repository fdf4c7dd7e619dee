-- ===== src/Dlist/Twice.antt =====
-- What a second `list_add` of an entry behind itself does to libs/list.h's pointers.
use oscmp.Base.{ℕ, ◌≡◌, ◌≢◌, arith}
use oscmp.Dlist.Defs.{Links, list_add, list_add_after, list_add_between, list_del, list_del_between}

module _ (s : Links) where
  pub list_add-next :
      (x e : ℕ) → e ≢ x → ((list_add s x e).next x ≡ e) × ((list_add s x e).next e ≡ s.next x)
  unfolding list_add list_add_after list_add_between
  list_add-next x e h = ground arith

  -- The entry becomes its own predecessor, and every `next` pointer keeps its value.
  pub list_add_self :
      (e i : ℕ) → ((list_add s e e).prev e ≡ e) × ((list_add s e e).next i ≡ s.next i)
  unfolding list_add list_add_after list_add_between
  list_add_self e i = ground arith

  -- `list_del` of an entry that is its own predecessor leaves every other `next` pointer.
  pub list_del-next_self : (e i : ℕ) → s.prev e ≡ e → (list_del s e).next i ≡ s.next i
  unfolding list_del list_del_between
  list_del-next_self e i h = ground arith
