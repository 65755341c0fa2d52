-- ===== src/Slab/Tests.antt =====
-- crates/monoio/src/utils/slab.rs on concrete elements and keys.
use nirvana_dev.Prelude.{ℕ, ◌≡◌, refl, Option, none, some, arith}
use nirvana_dev.Slab.{Slab, new, insert, insert_from, or_new, with_page, remove, get}
use nirvana_dev.Slab.Page.{Page, occupied, put, alloc_set, alloc, set, is_full}
use nirvana_dev.Slab.Page
use nirvana_dev.Slab.Fine.{IsFine, lookup, get-lookup, new_slab-IsFine}
use nirvana_dev.Slab.Insert.{InsertPost, insert-Post, insert-IsFine}
use nirvana_dev.Slab.Remove.{Taken, remove-Taken}

abbrev no_elements : Slab ℕ
no_elements = record { pages = λ _. none; w_page_id = 0; generation = 0 }

no_elements-IsFine : IsFine no_elements
unfolding new
no_elements-IsFine = new_slab-IsFine

abbrev one_page : Page ℕ
one_page = record {
  slots = put (λ _. none) 0 (some (occupied 7));
  size = 64;
  used = 1;
  initialized = 1;
  next = 1;
  prev_len = 0;
}

abbrev one_element : Slab ℕ
one_element = record { pages = put (λ _. none) 0 (some one_page); w_page_id = 0; generation = 0 }

inserted_one : insert no_elements 7 ≡ some (some (0, one_element))
unfolding insert insert_from or_new with_page alloc_set alloc set is_full Page.new
inserted_one = refl

one_element-IsFine : IsFine one_element
one_element-IsFine = insert-IsFine no_elements 7 0 one_element no_elements-IsFine inserted_one

insert-Post_example :
    (o : Option (ℕ × Slab ℕ)) × (insert one_element 8 ≡ some o) × InsertPost 0 one_element 8 o
insert-Post_example = insert-Post one_element 8 one_element-IsFine

remove-Taken_example :
    (o : Option ℕ) × (s' : Slab ℕ) × (remove one_element 0 ≡ some (o, s'))
    × Taken one_element 0 o s'
remove-Taken_example = remove-Taken one_element 0 one_element-IsFine (omega arith)

get-lookup_example : get one_element 0 ≡ some (lookup one_element 0)
get-lookup_example = get-lookup one_element 0 one_element-IsFine (omega arith)
