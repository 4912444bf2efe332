-- ===== src/Proxy/Paging/Examples.antt =====
-- A paged search of two titles against an upstream with one item for each request.
use jproxy_go.Common.{
  ◌≡◌, refl, Option, none, some, List, [], ◌∷◌, arith, ◌+ℤ◌, pos, Text, codes, text_eq, is_space,
  trim_left, trim_right, trim_space, lookup, starts_with, index, contains, count_from, last_index,
  all_digits, some_digits, decimal_from, unsigned, atoi_pos, atoi,
}
use jproxy_go.Proxy.Query.{Query, get_param, int_param}
use jproxy_go.Proxy.Xml.{count_items, merge_xml, open_from, cut_items, trim_xml_items}
use jproxy_go.Proxy.Paging.{Search, zeros, start_offsets, start_progress, paged_search}
use jproxy_go.Proxy.Paging.Requests.{IsProgress}
use jproxy_go.Proxy.Paging.Turns.{Ends, paged_search_lem}

abbrev one_item : Text
one_item = codes "<channel><item>a</item></channel>"

abbrev upstream : List Query → Query → Option Text
upstream asked q = some one_item

abbrev two_titles : Search
two_titles = record {
  q = (codes "q", codes "Frieren" ∷ []) ∷ (codes "limit", codes "2" ∷ []) ∷ [];
  titles = codes "Frieren" ∷ codes "Sousou no Frieren" ∷ [];
  min_count = pos 0;
}

two_counted : count_items (codes "<item>a</item><item>b</item>") ≡ 2
unfolding count_items trim_space trim_left trim_right is_space count_from starts_with
two_counted = refl

one_kept :
    trim_xml_items (codes "<channel><item>a</item><item>b</item></channel>") (pos 1)
    ≡ codes "<channel><item>a</item></channel>"
unfolding trim_xml_items count_items trim_space trim_left trim_right is_space count_from starts_with
    open_from cut_items index last_index
one_kept = refl

two_merged :
    merge_xml
      (codes "<channel><item>a</item></channel>")
      (codes "<channel><item>b</item></channel>")
    ≡ codes "<channel><item>a</item><item>b</item></channel>"
unfolding merge_xml contains index starts_with
two_merged = refl

paged_search_lem_example :
    Ends
      (IsProgress two_titles (start_progress two_titles none))
      (paged_search upstream two_titles none)
unfolding ◌+ℤ◌ start_progress int_param atoi get_param lookup text_eq atoi_pos unsigned some_digits
    all_digits decimal_from start_offsets zeros
paged_search_lem_example =
    paged_search_lem upstream two_titles none (omega arith) (omega arith)
      (omega arith, (omega arith, tt))
