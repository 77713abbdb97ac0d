-- ===== src/Network/Control.antt =====
-- Sequences of segments, and the replies to a negotiation as such.
use vkt7d.Common.{
  ℕ, ◌==◌, ◌≡◌, refl, ap, ◌∙◌, Bool, true, false, if◌then◌else◌, List, [], ◌∷◌, ◌++◌, append-nil,
  append_assoc, map, Bytes, All,
}
use vkt7d.Telnet.{will, wont, do_, dont}
use vkt7d.Telnet.Stream.{byte}
use vkt7d.Telnet.Wire.{
  Verb, Segment, text, option, IsSegment, wires, meanings, v_will, v_wont, v_do, v_dont,
}
use vkt7d.Port.Output.{is_supported, reply}
use vkt7d.Port.Queue.Filled.{data_of, data_of-bytes}

pub wires-append : (xs ys : List Segment) → wires (xs ++ ys) ≡ wires xs ++ wires ys
wires-append [] ys = refl
wires-append (x ∷ xs) ys = simp (wires-append xs ys, append_assoc)

pub meanings-append : (xs ys : List Segment) → meanings (xs ++ ys) ≡ meanings xs ++ meanings ys
meanings-append [] ys = refl
meanings-append (x ∷ xs) ys = simp (meanings-append xs ys, append_assoc)

pub one_text : (b : Bytes) → data_of (meanings (text b ∷ [])) ≡ b
one_text b = ap data_of (append-nil (map byte b)) ∙ data_of-bytes b

-- A reply to a negotiation is an option, or nothing.
pub record Control (b : Bytes) : Type 0 where
  pub segments : List Segment
  pub formed : All IsSegment segments
  pub on_wire : wires segments ≡ b
  pub no_data : data_of (meanings segments) ≡ []

Control-none : Control []
Control-none = record { segments = []; formed = tt; on_wire = refl; no_data = refl }

Control-if : (b : Bool) (x y : Bytes) → Control x → Control y → Control (if b then x else y)
Control-if true x y h k = h
Control-if false x y h k = k

Control-option : (v : Verb) (opt : ℕ) → Control (wires (option v opt ∷ []))
Control-option v opt = record {
  segments = option v opt ∷ [];
  formed = (tt, tt);
  on_wire = refl;
  no_data = refl;
}

pub reply-Control : (cmd opt : ℕ) → Control (reply cmd opt)
unfolding reply
reply-Control cmd opt =
    let known = is_supported opt in
    let on_do = Control-if known _ _ (Control-option v_will opt) (Control-option v_wont opt) in
    let on_will = Control-if known _ _ (Control-option v_do opt) (Control-option v_dont opt) in
    Control-if (cmd == do_) _ _ on_do (
      Control-if (cmd == dont) _ _ (Control-option v_wont opt) (
        Control-if (cmd == will) _ _ on_will
          (Control-if (cmd == wont) _ _ (Control-option v_dont opt) Control-none)))
