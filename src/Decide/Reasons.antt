-- ===== src/Decide/Reasons.antt =====
-- What the verbs of core/decide.py leave in the traces.
use corrigenda.Base.{
  Bool, true, false, ◌≡◌, refl, ap, Option, none, some, [], ◌∷◌, Text, is_empty, arith, eq_iff,
  if◌then◌else◌,
}
use corrigenda.Manifest.{LineManifest, LineRef, LineStatus, line_ref, ref_eq}
use corrigenda.Decide.{
  LineTrace, Traces, get_trace, update_trace, set_trace, note_reason, write_decision, fall_back,
}

-- The trace that a host finds for a line.
abbrev pub trace_of : LineRef → Option Traces → Option LineTrace
trace_of r none = none
trace_of r (some ts) = get_trace r ts

abbrev map_trace : (LineTrace → LineTrace) → Option LineTrace → Option LineTrace
map_trace f none = none
map_trace f (some t) = some (f t)

get_trace-update_trace :
    (f : LineTrace → LineTrace) (r q : LineRef) (ts : Traces)
    → get_trace q (update_trace f r ts)
      ≡ (if ref_eq r q then map_trace f (get_trace q ts) else get_trace q ts)
unfolding get_trace update_trace
get_trace-update_trace f r q [] = ground arith
get_trace-update_trace f r q ((k, t) ∷ ts) = ground (
  arith,
  get_trace-update_trace f r q ts,
  eq_iff k.page_id r.page_id,
  eq_iff k.line_id r.line_id,
  eq_iff r.page_id q.page_id,
  eq_iff r.line_id q.line_id,
  eq_iff k.page_id q.page_id,
  eq_iff k.line_id q.line_id,
)

trace_of-set_trace :
    (f : LineTrace → LineTrace) (l : LineManifest) (q : LineRef) (ts : Option Traces)
    → trace_of q (set_trace f l ts)
      ≡ (if ref_eq (line_ref l) q then map_trace f (trace_of q ts) else trace_of q ts)
unfolding set_trace
trace_of-set_trace f l q none = ground arith
trace_of-set_trace f l q (some ts) = get_trace-update_trace f (line_ref l) q ts

-- What falling back makes of the trace of the line.
abbrev fallen : Text → Text → LineTrace → LineTrace
fallen text reason t = note_reason reason (write_decision text LineStatus.fallback t)

map_trace_twice :
    (b : Bool) (f g : LineTrace → LineTrace) (o : Option LineTrace)
    → (if b then map_trace g (if b then map_trace f o else o) else (if b then map_trace f o else o))
      ≡ (if b then map_trace (λ t. g (f t)) o else o)
map_trace_twice true f g none = refl
map_trace_twice true f g (some t) = refl
map_trace_twice false f g o = refl

trace_of-fall_back :
    (l : LineManifest) (reason : Text) (q : LineRef) (ts : Option Traces)
    → trace_of q (fall_back l reason ts).1 ≡ (
        if ref_eq (line_ref l) q
        then map_trace (fallen l.ocr_text reason) (trace_of q ts)
        else trace_of q ts)
unfolding fall_back
trace_of-fall_back l reason q ts =
    rw
      (
        trace_of-set_trace (note_reason reason) l q _,
        trace_of-set_trace (write_decision l.ocr_text LineStatus.fallback) l q ts,
      )
      (map_trace_twice (ref_eq (line_ref l) q) _ (note_reason reason) (trace_of q ts))

fallen_twice :
    (text r1 r2 : Text) (t : LineTrace)
    → is_empty r1 ≡ false
    → fallen text r2 (fallen text r1 t) ≡ fallen text r1 t
unfolding note_reason write_decision
fallen_twice text r1 r2 t h = ground arith

line_ref-fall_back :
    (l : LineManifest) (r : Text) (ts : Option Traces) → line_ref (fall_back l r ts).0 ≡ line_ref l
unfolding fall_back line_ref
line_ref-fall_back l r ts = refl

text-fall_back :
    (l : LineManifest) (r : Text) (ts : Option Traces) → (fall_back l r ts).0.ocr_text ≡ l.ocr_text
unfolding fall_back
text-fall_back l r ts = refl

written_twice :
    (b : Bool) (text r1 r2 : Text) (o : Option LineTrace)
    → is_empty r1 ≡ false
    → (if b
        then map_trace (fallen text r2) (if b then map_trace (fallen text r1) o else o)
        else (if b then map_trace (fallen text r1) o else o))
      ≡ (if b then map_trace (fallen text r1) o else o)
written_twice true text r1 r2 none h = refl
written_twice true text r1 r2 (some t) h = ap some (fallen_twice text r1 r2 t h)
written_twice false text r1 r2 o h = refl

-- Falling back a second time, with whatever reason, changes neither the line nor the trace of any
-- line: the first reason given is the one that stays, as long as it is not empty.
pub fall_back_twice :
    (l : LineManifest) (r1 r2 : Text) (ts : Option Traces)
    → is_empty r1 ≡ false
    → let again = fall_back (fall_back l r1 ts).0 r2 (fall_back l r1 ts).1 in
      (again.0 ≡ (fall_back l r1 ts).0)
      × ((q : LineRef) → trace_of q again.1 ≡ trace_of q (fall_back l r1 ts).1)
fall_back_twice l r1 r2 ts h = (
  unfold fall_back in refl,
  λ q.
      rw
        (
          trace_of-fall_back (fall_back l r1 ts).0 r2 q (fall_back l r1 ts).1,
          trace_of-fall_back l r1 q ts,
          line_ref-fall_back l r1 ts,
          text-fall_back l r1 ts,
        )
        (written_twice (ref_eq (line_ref l) q) l.ocr_text r1 r2 (trace_of q ts) h),
)
