-- ===== src/Runtime/Gate/Exclusion.antt =====
-- No two synchronisations of one kind are in flight (internal/runtime/title_sync_gate.go).
use mathlib.Core.Path.{subst}
use jproxy_go.Common.{
  ◌≤◌, ◌≡◌, sym, Bool, false, List, Memᴰ, arith, All, All-map, All-zip, All-Memᴰ, text_eq,
}
use jproxy_go.Runtime.Gate.{Attempt, Gate, begin, finish, clear, too_frequent}
use jproxy_go.Runtime.Gate.Attempts.{
  without_id, Reached, IsCurrent, IsOver, Apart, IsExclusive, without_id-All, without_id-Apart,
  without_id_others, begin-IsCurrent, begin-IsOver, begin_new, finish-IsCurrent, finish-IsOver,
  finish-IsOver_current, finish_again, clear-IsCurrent, clear-IsOver, next_id-finish, next_id-clear,
  fresh, began, finished, repeated, cleared,
}

Reached-IsExclusive :
    {g : Gate} {open_ones over : List Attempt}
    → Reached g open_ones over
    → IsExclusive g open_ones over
Reached-IsExclusive fresh = record { apart = tt; current = tt; past = tt; numbered = tt }
Reached-IsExclusive (began {g} {h} {open_ones} {over} {a} marker r e l) =
    let v = Reached-IsExclusive r in
    let new = begin_new marker g h a e l in
    record {
      apart = (
        All-map (IsCurrent g) (λ b. text_eq b.marker a.marker ≡ false)
            (λ b c. (begin-IsCurrent marker g h a b e c).1) open_ones v.current,
        v.apart,
      );
      current = (
        new.0,
        All-map (IsCurrent g) (IsCurrent h) (λ b c. (begin-IsCurrent marker g h a b e c).0)
            open_ones v.current,
      );
      past = All-map (IsOver g) (IsOver h) (λ b c. begin-IsOver marker g h a b e l c) over v.past;
      numbered = (
        omega (arith, new.1),
        All-map (λ b. b.id ≤ g.next_id) (λ b. b.id ≤ h.next_id) (λ b c. omega (arith, new.2))
            open_ones v.numbered,
      );
    }
Reached-IsExclusive (finished {g} {open_ones} {over} a succeeded r m) =
    let v = Reached-IsExclusive r in
    let left = without_id a.id open_ones in
    let same : (finish a succeeded g).next_id ≡ g.next_id = next_id-finish a succeeded g in
    record {
      apart = without_id-Apart a.id open_ones v.apart;
      current =
          All-map (λ b. (text_eq b.marker a.marker ≡ false) × IsCurrent g b)
            (IsCurrent (finish a succeeded g)) (λ b c. finish-IsCurrent a b succeeded g c.0 c.1)
            left
            (All-zip (λ b. text_eq b.marker a.marker ≡ false) (IsCurrent g) left
              (without_id_others a open_ones m v.apart)
              (without_id-All (IsCurrent g) a.id open_ones v.current));
      past = (
        finish-IsOver_current a succeeded g (All-Memᴰ (IsCurrent g) a open_ones m v.current)
            (All-Memᴰ (λ b. b.id ≤ g.next_id) a open_ones m v.numbered),
        All-map (IsOver g) (IsOver (finish a succeeded g)) (λ b c. finish-IsOver a b succeeded g c)
            over v.past,
      );
      numbered = rw same (without_id-All (λ b. b.id ≤ g.next_id) a.id open_ones v.numbered);
    }
Reached-IsExclusive (repeated {g} {open_ones} {over} a succeeded r m) =
    subst (λ h. IsExclusive h open_ones over)
      (sym (finish_again a succeeded g (All-Memᴰ (IsOver g) a over m (Reached-IsExclusive r).past)))
      (Reached-IsExclusive r)
Reached-IsExclusive (cleared {g} {open_ones} {over} marker r) =
    let v = Reached-IsExclusive r in
    record {
      apart = v.apart;
      current =
          All-map (IsCurrent g) (IsCurrent (clear marker g)) (clear-IsCurrent marker g) open_ones
            v.current;
      past = All-map (IsOver g) (IsOver (clear marker g)) (clear-IsOver marker g) over v.past;
      numbered = rw (next_id-clear marker g) v.numbered;
    }

-- Whatever begins, ends, repeated ends and clears have happened: no two open attempts are of one
-- kind, and the gate waits for each of them, so that a begin of its kind is refused.
pub open_attempts-Apart :
    {g : Gate} {open_ones over : List Attempt}
    → Reached g open_ones over
    → Apart open_ones × All (λ a. (begin a.marker g).1 ≡ too_frequent) open_ones
unfolding begin
open_attempts-Apart {g} {open_ones} r =
    let v = Reached-IsExclusive r in
    (
      v.apart,
      All-map (IsCurrent g) (λ a. (begin a.marker g).1 ≡ too_frequent) (λ a c. ground arith)
          open_ones v.current,
    )

-- Finishing an attempt that is over already changes nothing, even while another attempt of the
-- same kind is in flight.
pub finish_over_ignored :
    {g : Gate} {open_ones over : List Attempt} (a : Attempt) (succeeded : Bool)
    → Reached g open_ones over
    → Memᴰ a over
    → finish a succeeded g ≡ g
finish_over_ignored {g} {over} a succeeded r m =
    finish_again a succeeded g (All-Memᴰ (IsOver g) a over m (Reached-IsExclusive r).past)
