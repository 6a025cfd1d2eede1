-- ===== src/Tests/Lists.antt =====
-- The theorems on doubly linked lists at concrete lists.
use s6_projet_reseau.Common.{◌≡◌, refl, arith, true, false, some, List, [], ◌∷◌, ◌++◌}
use s6_projet_reseau.Common.Run.{ok, fault, Returns}
use s6_projet_reseau.Store.{NodeType, write, load, set_next, set_prev, free}
use s6_projet_reseau.Dllist.{
  dllist_push_back, dllist_pop_back, dllist_pop_front, dllist_insert, dllist_remove, dllist_get,
  dllist_free, dllist_empty, new_dllist_node, dllist_is_empty, dllist_first_node, dllist_last_node,
  dllist_free_node, link_before, link_front, link_back, unlink_at, unlink_back, unlink_front,
  follow, walk, content_of,
}
use s6_projet_reseau.Dllist.Added.{Pushed}
use s6_projet_reseau.Dllist.Push.{dllist_push_back-append}
use s6_projet_reseau.Dllist.Spec.{
  Call, insert, push_back, remove, pop_back, pop_front, done, data_at, perform_all,
}
use s6_projet_reseau.Dllist.Sequence.{Represents}
use s6_projet_reseau.Dllist.Refine.{AreFresh, perform_all-Represents}
use s6_projet_reseau.Dllist.Removed.{Removed}
use s6_projet_reseau.Dllist.Get.{dllist_get-got}
use s6_projet_reseau.Dllist.Remove.{dllist_remove-at}
use s6_projet_reseau.Dllist.Insert.{dllist_insert-at}
use s6_projet_reseau.Dllist.Free.{Emptied, dllist_free-fault, dllist_empty-Emptied}
use s6_projet_reseau.Tests.Data.{
  heap, three, header, header-IsDllist, four, five, four-IsFresh, data-IsAccepted,
}

dllist_remove-at_example :
    Returns (Removed heap 2 12 three ((1, 11) ∷ (3, 13) ∷ [])) (dllist_remove header 1 heap)
dllist_remove-at_example =
    dllist_remove-at heap header ((1, 11) ∷ []) 2 12 ((3, 13) ∷ []) header-IsDllist (omega arith)

dllist_insert-at_example :
    Returns
      (Pushed heap ((4, 14) ∷ three) ((1, 11) ∷ (4, 14) ∷ (2, 12) ∷ (3, 13) ∷ []))
      (dllist_insert four (some header) 1 NodeType.int 14 heap)
dllist_insert-at_example =
    dllist_insert-at four heap header ((1, 11) ∷ []) ((2, 12) ∷ (3, 13) ∷ []) NodeType.int 14
      header-IsDllist four-IsFresh data-IsAccepted (omega arith)

dllist_push_back-append_example :
    Returns
      (Pushed heap ((4, 14) ∷ three) (three ++ ((4, 14) ∷ [])))
      (dllist_push_back four (some header) NodeType.int 14 heap)
dllist_push_back-append_example =
    dllist_push_back-append four heap header three NodeType.int 14 header-IsDllist four-IsFresh
      data-IsAccepted

-- The second call is refused.
abbrev calls : List Call
calls =
    insert four 1 NodeType.int 14
    ∷ push_back five NodeType.string 15
    ∷ remove 2
    ∷ pop_back
    ∷ pop_front
    ∷ []

calls-AreFresh : AreFresh calls header heap
unfolding dllist_insert dllist_push_back dllist_remove dllist_pop_back dllist_pop_front
    new_dllist_node dllist_is_empty dllist_first_node dllist_last_node dllist_free_node link_before
    link_front link_back unlink_at unlink_back unlink_front follow walk content_of write load
    set_next set_prev free
calls-AreFresh =
    (four-IsFresh, (record { not_null = ground arith; unused = refl }, (tt, (tt, (tt, tt)))))

perform_all-Represents_example :
    Returns
      (λ r.
        (r.0.0 ≡ done true ∷ done false ∷ data_at 12 ∷ data_at 13 ∷ data_at 11 ∷ [])
        × Represents r.1 r.0.1 (14 ∷ []))
      (perform_all calls header heap)
perform_all-Represents_example =
    perform_all-Represents calls header heap (11 ∷ 12 ∷ 13 ∷ [])
      (record { items = three; is = header-IsDllist; same = refl }) calls-AreFresh (omega arith)

-- The element at index 0 is 11.
dllist_get-got_example : dllist_get header 0 heap ≡ ok (13, heap)
dllist_get-got_example = dllist_get-got heap header three 0 header-IsDllist (omega arith)

dllist_free-fault_example : dllist_free header false heap ≡ fault
dllist_free-fault_example =
    dllist_free-fault heap header 1 11 ((2, 12) ∷ (3, 13) ∷ []) header-IsDllist refl

dllist_empty-Emptied_example :
    Returns (λ r. Emptied heap 1 3 three r.1) (dllist_empty header false heap)
dllist_empty-Emptied_example =
    dllist_empty-Emptied heap header 1 11 2 12 ((3, 13) ∷ []) header-IsDllist refl
