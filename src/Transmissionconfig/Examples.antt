-- ===== src/Transmissionconfig/Examples.antt =====
-- Paths of Transmission, and a normalised one.
use jproxy_go.Common.{
  ◌≡◌, refl, true, false, [], codes, text_eq, starts_with, index, contains, trim_suffix, has_suffix,
}
use jproxy_go.Transmissionconfig.{
  transmission_rpc, dot_segment_from, has_dot_segment, is_safe_path, normalized_trimmed,
  normalized_path,
}
use jproxy_go.Transmissionconfig.Paths.{normalized_path-normalized_path}

web_interface : normalized_path (codes "/x/transmission/web/") ≡ codes "/x/transmission/rpc"
unfolding normalized_path normalized_trimmed trim_suffix has_suffix text_eq
web_interface = refl

base_path : normalized_path (codes "/x") ≡ codes "/x/transmission/rpc"
unfolding normalized_path normalized_trimmed trim_suffix has_suffix text_eq
base_path = refl

dots_refused : is_safe_path (codes "/x/../transmission/rpc") [] ≡ false
unfolding is_safe_path contains index starts_with has_dot_segment dot_segment_from text_eq
dots_refused = refl

normalized_path-normalized_path_example :
    (has_suffix transmission_rpc (normalized_path (codes "/x/transmission/web")) ≡ true)
    × (normalized_path (normalized_path (codes "/x/transmission/web"))
        ≡ normalized_path (codes "/x/transmission/web"))
normalized_path-normalized_path_example =
    normalized_path-normalized_path (codes "/x/transmission/web")
