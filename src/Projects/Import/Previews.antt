-- ===== src/Projects/Import/Previews.antt =====
-- The preview groups of an import: `_collect_preview_groups` of
-- app/modules/projects/application/file_import_service.py. Texts are ordered by their code points.
use dimax_ops_backend.Base.{
  suc, Bool, true, false, ◌&&◌, ◌||◌, none, some, List, [], ◌∷◌, ◌++◌, String, ◌==◌, ltb,
  if◌then◌else◌, take, map, get_or, same_text, mem_text,
}
use Prim.Native.Char.{code}
use dimax_ops_backend.Domain.{PreparedRow, PreviewGroup}
use dimax_ops_backend.Projects.Import.Text.{Unicode, clean_text}

-- The key of a group, and the texts that it is ordered by.
abbrev pub GroupKey : Type 0
GroupKey = List String

abbrev pub key_of_group : PreviewGroup → GroupKey
key_of_group g =
    get_or g.order_number ""
    ∷ get_or g.house_number ""
    ∷ get_or g.floor_label ""
    ∷ get_or g.apartment_number ""
    ∷ get_or g.door_marking ""
    ∷ []

abbrev same_texts : List String → List String → Bool
same_texts [] [] = true
same_texts [] (t ∷ ts) = false
same_texts (s ∷ ss) [] = false
same_texts (s ∷ ss) (t ∷ ts) = same_text s t && same_texts ss ts

-- `s < t`
unfoldable pub text_before : (s t : String) → Bool
text_before s String.[] = false
text_before String.[] (String.◌∷◌ b t) = true
text_before (String.◌∷◌ a s) (String.◌∷◌ b t) =
    ltb (code a) (code b) || code a == code b && text_before s t

-- `s < t` on tuples of texts.
unfoldable pub texts_before : (ss ts : List String) → Bool
unfolding text_before
texts_before ss [] = false
texts_before [] (t ∷ ts) = true
texts_before (s ∷ ss) (t ∷ ts) = text_before s t || same_text s t && texts_before ss ts

-- The group of a row alone.
unfoldable pub group_of : PreparedRow → PreviewGroup
unfolding clean_text
group_of r = record {
  order_number = clean_text r.labels.order_number;
  house_number = clean_text r.labels.house_number;
  floor_label = clean_text r.labels.floor_label;
  apartment_number = clean_text r.labels.apartment_number;
  door_marking = clean_text r.labels.door_marking;
  door_count = 1;
  location_codes = elim (clean_text r.labels.location_code) [ none ↦ [] | some l ↦ l ∷ [] ];
}

abbrev add_codes : (codes : List String) → List String → List String
add_codes [] known = known
add_codes (c ∷ codes) known = add_codes codes (if mem_text c known then known else known ++ c ∷ [])

-- The row's group is added to its bucket, or is a new one.
unfoldable pub add_to_group : PreviewGroup → List PreviewGroup → List PreviewGroup
add_to_group g [] = g ∷ []
add_to_group g (h ∷ groups) =
    let rest = add_to_group g groups in
    if same_texts (key_of_group g) (key_of_group h)
    then record h {
      door_count = suc h.door_count;
      location_codes = add_codes g.location_codes h.location_codes;
    }
      ∷ groups
    else h ∷ rest

unfoldable pub grouped : List PreparedRow → List PreviewGroup → List PreviewGroup
unfolding group_of add_to_group
grouped [] groups = groups
grouped (r ∷ rows) groups = grouped rows (add_to_group (group_of r) groups)

-- `sorted(..., key=...)`, which keeps the order of equal keys.
unfoldable pub insert_group : {A : Type 0} → (A → List String) → A → List A → List A
unfolding texts_before
insert_group key a [] = a ∷ []
insert_group key a (b ∷ bs) =
    let rest = insert_group key a bs in
    if texts_before (key b) (key a) then b ∷ rest else a ∷ b ∷ bs

unfoldable pub sorted_by : {A : Type 0} → (A → List String) → List A → List A
unfolding insert_group
sorted_by key [] = []
sorted_by key (a ∷ rest) = insert_group key a (sorted_by key rest)

abbrev with_sorted_codes : PreviewGroup → PreviewGroup
with_sorted_codes g = record g { location_codes = sorted_by (λ c. c ∷ []) g.location_codes }

-- `_collect_preview_groups`
unfoldable pub collect_preview_groups : Unicode → List PreparedRow → List PreviewGroup
unfolding grouped sorted_by
collect_preview_groups unicode rows =
    map with_sorted_codes
      (take 80 (sorted_by (λ g. map unicode.casefold (key_of_group g)) (grouped rows [])))
