-- ===== src/Proxy/Xml.antt =====
-- internal/proxy/xml.go: counting, merging and trimming the items of feeds.
use jproxy_go.Common.{
  ℕ, zero, suc, ◌+◌, Bool, ◌||◌, not, Option, none, some, [], ◌∷◌, ◌++◌, ℤ, pos_part, leb_ℤ, pos,
  leb, if◌then◌else◌, length, take, drop, Text, codes, is_empty, trim_space, shift, index, contains,
  count_from, last_index,
}

abbrev pub item_open : Text
item_open = codes "<item>"

abbrev pub item_close : Text
item_close = codes "</item>"

abbrev pub channel_close : Text
channel_close = codes "</channel>"

unfoldable pub count_items : Text → ℕ
count_items xml = if is_empty (trim_space xml) then 0 else count_from item_open 0 xml

unfoldable pub merge_xml : Text → Text → Text
merge_xml [] b = b
merge_xml (x ∷ a) [] = x ∷ a
merge_xml (x ∷ a) (y ∷ b) =
    if not (contains item_open (x ∷ a))
    then y ∷ b
    else if not (contains item_open (y ∷ b))
    then x ∷ a
    else elim (index channel_close (x ∷ a)) [
      | none ↦ x ∷ a
      | some cut_a ↦ elim (index item_open (y ∷ b)) [
        | none ↦ x ∷ a
        | some start_b ↦ take cut_a (x ∷ a) ++ drop start_b (y ∷ b)
      ]
    ]

-- The loop of trimXMLItems from `start`: where the item opens that is `n` items further on.
unfoldable pub open_from : ℕ → ℕ → Text → Option ℕ
open_from zero start xml = shift start (index item_open (drop start xml))
open_from (suc n) start xml = elim (index item_open (drop start xml)) [
  | none ↦ none
  | some i ↦ open_from n (start + i + length item_open) xml
]

-- The end of trimXMLItems, with the index that its loop left.
unfoldable pub cut_items : Option ℕ → Text → Text
cut_items none xml = xml
cut_items (some idx) xml = elim (last_index item_close xml) [
  | none ↦ xml
  | some last_close ↦ take idx xml ++ drop (last_close + length item_close) xml
]

unfoldable pub trim_xml_items : Text → ℤ → Text
trim_xml_items xml limit =
    if leb_ℤ limit (pos 0) || leb (count_items xml) (pos_part limit)
    then xml
    else cut_items (open_from (pos_part limit) 0 xml) xml

unfoldable pub has_channel : Text → Bool
has_channel xml = contains (codes "<channel>") xml
