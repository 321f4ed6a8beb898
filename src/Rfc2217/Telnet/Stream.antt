-- ===== src/Rfc2217/Telnet/Stream.antt =====
-- `decode` as a stream transformer: its output does not depend on how the reads cut the input.
use ttyforge.Common.{Bytes, ℕ, ◌≡◌, refl, ◌∙◌, [], ◌∷◌, ◌++◌, append-nil, append_assoc, arith}
use ttyforge.Rfc2217.Telnet.{Decoded, State, in_data, Telnet, nothing, step_in, decode_onto, decode}

-- One output behind another, field by field, as the callers accumulate them.
abbrev pub joined : Decoded → Decoded → Decoded
joined a b = record {
  payload = a.payload ++ b.payload;
  reply = a.reply ++ b.reply;
  notices = a.notices ++ b.notices;
}

pub joined-nothing : (a : Decoded) → joined a nothing ≡ a
joined-nothing a = ground (arith, append-nil a.payload, append-nil a.reply, append-nil a.notices)

joined_assoc : (a b c : Decoded) → joined (joined a b) c ≡ joined a (joined b c)
joined_assoc a b c = ground (
  arith,
  append_assoc a.payload b.payload c.payload,
  append_assoc a.reply b.reply c.reply,
  append_assoc a.notices b.notices c.notices,
)

step_in-joined :
    (s : State) (t : Telnet) (out : Decoded) (b : ℕ)
    → step_in s t out b ≡ ((step_in s t nothing b).0, joined out (step_in s t nothing b).1)
unfolding step_in
step_in-joined in_data t out b =
    ground (arith, joined-nothing out, append-nil out.reply, append-nil out.notices)
step_in-joined _ t out b = ground (
  arith,
  joined-nothing out,
  append-nil out.payload,
  append-nil out.reply,
  append-nil out.notices,
)

pub decode_onto-joined :
    (t : Telnet) (out : Decoded) (bs : Bytes)
    → decode_onto t out bs ≡ ((decode t bs).0, joined out (decode t bs).1)
unfolding decode decode_onto
decode_onto-joined t out [] = rw (joined-nothing out)
decode_onto-joined t out (b ∷ bs) =
    let (t', o) = step_in t.state t nothing b in
    let d = decode t' bs in
    ground (
      arith,
      step_in-joined t.state t out b,
      decode_onto-joined t' (joined out o) bs,
      decode_onto-joined t' o bs,
      joined_assoc out o d.1,
    )

decode_onto-append :
    (t : Telnet) (out : Decoded) (xs ys : Bytes)
    → decode_onto t out (xs ++ ys)
      ≡ decode_onto (decode_onto t out xs).0 (decode_onto t out xs).1 ys
unfolding decode_onto
decode_onto-append t out [] ys = refl
decode_onto-append t out (b ∷ bs) ys =
    let (t', out') = step_in t.state t out b in decode_onto-append t' out' bs ys

-- Wherever a read cuts the input, decoding the two pieces one after the other leaves the same codec
-- and, joined, the same payload, replies and notices as decoding the whole.
pub decode-append :
    (t : Telnet) (xs ys : Bytes)
    → let (t', first) = decode t xs in
      let (t'', second) = decode t' ys in decode t (xs ++ ys) ≡ (t'', joined first second)
unfolding decode
decode-append t xs ys =
    decode_onto-append t nothing xs ys ∙ decode_onto-joined (decode t xs).0 (decode t xs).1 ys
