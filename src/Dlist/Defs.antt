-- ===== src/Dlist/Defs.antt =====
-- libs/list.h: the entries and the operations on them.
use oscmp.Base.{ℕ, Bool, ◌==◌, update}

-- `struct list_entry` of every address.
pub record Links : Type 0 where
  pub prev : ℕ → ℕ
  pub next : ℕ → ℕ

unfoldable pub list_init : Links → ℕ → Links
list_init s elm = record { prev = update s.prev elm elm; next = update s.next elm elm }

-- `prev->next = next->prev = elm; elm->next = next; elm->prev = prev;` in this order.
unfoldable pub list_add_between : Links → ℕ → ℕ → ℕ → Links
list_add_between s elm prev next = record {
  prev = update (update s.prev next elm) elm prev;
  next = update (update s.next prev elm) elm next;
}

unfoldable pub list_add_after : Links → ℕ → ℕ → Links
list_add_after s listelm elm = list_add_between s elm listelm (s.next listelm)

unfoldable pub list_add : Links → ℕ → ℕ → Links
list_add s listelm elm = list_add_after s listelm elm

unfoldable pub list_add_before : Links → ℕ → ℕ → Links
list_add_before s listelm elm = list_add_between s elm (s.prev listelm) listelm

unfoldable pub list_del_between : Links → ℕ → ℕ → Links
list_del_between s prev next = record {
  prev = update s.prev next prev;
  next = update s.next prev next;
}

unfoldable pub list_del : Links → ℕ → Links
list_del s listelm = list_del_between s (s.prev listelm) (s.next listelm)

unfoldable pub list_del_init : Links → ℕ → Links
list_del_init s listelm = list_init (list_del s listelm) listelm

unfoldable pub list_empty : Links → ℕ → Bool
list_empty s list = s.next list == list
