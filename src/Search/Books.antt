-- ===== src/Search/Books.antt =====
-- frontend/src/lib/search.ts: indexing a recipe and removing a book.
use lunch_loxs.Prelude.{
  ◌≡◌, [], ◌∷◌, ◌++◌, none, some, Text, codes, arith, text_eq, text_eq_iff, if◌then◌else◌,
  starts_with,
}
use lunch_loxs.Prelude.Maps
use lunch_loxs.Prelude.Maps.{get-set}
use lunch_loxs.Search.Index.{SearchEntry, Index, entry_key, index_recipe, remove_book_from_index}

get-remove_book :
    (v k : Text) (index : Index)
    → Maps.get k (remove_book_from_index v index)
      ≡ (if starts_with k (v ++ codes "/") then none else Maps.get k index)
unfolding remove_book_from_index Maps.get
get-remove_book v k [] = ground arith
get-remove_book v k ((j, e) ∷ index) = ground (arith, get-remove_book v k index, text_eq_iff j k)

-- After a recipe is indexed and a book removed, a key has an entry exactly if it is not one of that
-- book's, and then it has the new recipe's if it is that recipe's key, and what it had before if not.
pub get-remove_book-index_recipe :
    (e : SearchEntry) (v k : Text) (index : Index)
    → Maps.get k (remove_book_from_index v (index_recipe e index)) ≡ (
        if starts_with k (v ++ codes "/")
        then none
        else if text_eq (entry_key e) k
        then some e
        else Maps.get k index)
unfolding index_recipe
get-remove_book-index_recipe e v k index =
    ground
      (arith, get-remove_book v k (Maps.set (entry_key e) e index), get-set (entry_key e) k e index)
