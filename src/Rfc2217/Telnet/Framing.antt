-- ===== src/Rfc2217/Telnet/Framing.antt =====
-- What the codec makes of its own framing: `escape`d data and `subneg`s read back.
use ttyforge.Common.{
  ◌==◌, Bytes, ℕ, ◌≡◌, refl, ◌∙◌, false, [], ◌∷◌, ◌++◌, append-nil, append_assoc, arith,
}
use ttyforge.Rfc2217.Telnet.{
  iac, sb, se, opt_com_port, Decoded, in_data, in_sub, Telnet, nothing, subnegotiation, to_list,
  step_in, decode_onto, decode, escape_each, contains, escape, subneg,
}

escape-escape_each : (bs : Bytes) → contains iac bs ≡ false → escape_each bs ≡ bs
unfolding contains escape_each
escape-escape_each [] h = refl
escape-escape_each (b ∷ bs) h = ground (arith, escape-escape_each bs)

-- The shortcut for data without 0xFF gives what the loop would.
pub escape-eq : (bs : Bytes) → escape bs ≡ escape_each bs
unfolding escape
escape-eq bs = ground (arith, escape-escape_each bs)

decode_onto-escape_each :
    (t : Telnet) (out : Decoded) (bs rest : Bytes)
    → t.state ≡ in_data
    → decode_onto t out (escape_each bs ++ rest)
      ≡ decode_onto t (record out { payload = out.payload ++ bs }) rest
unfolding decode_onto escape_each step_in
decode_onto-escape_each t out [] rest h = rw append-nil
decode_onto-escape_each t out (b ∷ bs) rest h = ground (
  arith,
  decode_onto-escape_each t (record out { payload = out.payload ++ b ∷ [] }) bs rest h,
  append_assoc out.payload (b ∷ []) bs,
)

-- Any data, 0xFF included, comes back from `decode` as it went into `escape`, with no reply and no
-- notice, where the codec is between commands, and the codec is left as it was.
pub decode-escape :
    (t : Telnet) (bs : Bytes)
    → t.state ≡ in_data
    → decode t (escape bs) ≡ (t, record { payload = bs; reply = []; notices = [] })
unfolding decode
decode-escape t bs h =
    rw (escape-eq bs, ← append-nil (escape_each bs)) (decode_onto-escape_each t nothing bs [] h)

decode_onto_sub :
    (t : Telnet) (out : Decoded) (bs rest : Bytes)
    → t.state ≡ in_sub
    → decode_onto t out (escape_each bs ++ rest)
      ≡ decode_onto (record t { sub = t.sub ++ bs }) out rest
unfolding decode_onto escape_each step_in
decode_onto_sub t out [] rest h = rw append-nil
decode_onto_sub t out (b ∷ bs) rest h = ground (
  arith,
  decode_onto_sub (record t { sub = t.sub ++ b ∷ [] }) out bs rest h,
  append_assoc t.sub (b ∷ []) bs,
)

-- The first four bytes of a `subneg`, and its last two.
decode_onto_opening :
    (t : Telnet) (out : Decoded) (cmd : ℕ) (rest : Bytes)
    → t.state ≡ in_data
    → (cmd == iac) ≡ false
    → decode_onto t out (iac ∷ sb ∷ opt_com_port ∷ cmd ∷ rest)
      ≡ decode_onto (record t { state = in_sub; sub = opt_com_port ∷ cmd ∷ [] }) out rest
unfolding decode_onto step_in
decode_onto_opening t out cmd rest h c = ground arith

decode_onto_closing :
    (t : Telnet) (out : Decoded) (rest : Bytes)
    → t.state ≡ in_sub
    → decode_onto t out (iac ∷ se ∷ rest)
      ≡ decode_onto
          (record t { state = in_data; sub = [] })
          (record out { notices = out.notices ++ to_list (subnegotiation t.sub) })
          rest
unfolding decode_onto step_in
decode_onto_closing t out rest h = ground arith

pub decode_onto-subneg :
    (t : Telnet) (out : Decoded) (cmd : ℕ) (params rest : Bytes)
    → t.state ≡ in_data
    → (cmd == iac) ≡ false
    → decode_onto t out (subneg cmd params ++ rest)
      ≡ decode_onto
          (record t { sub = [] })
          (record out {
            notices = out.notices ++ to_list (subnegotiation (opt_com_port ∷ cmd ∷ params));
          })
          rest
unfolding subneg
decode_onto-subneg t out cmd params rest h c =
    rw (escape-eq params, append_assoc)
      (decode_onto_opening t out cmd _ h c
        ∙ decode_onto_sub _ out params (iac ∷ se ∷ rest) refl
        ∙ decode_onto_closing _ out rest refl
        ∙ rw h)

-- Where the codec is between commands, a subnegotiation, whatever its parameters and for a command
-- other than 0xFF, leaks nothing into the payload and draws no reply: it gives at most the notice
-- of its unescaped bytes.
pub decode-subneg :
    (t : Telnet) (cmd : ℕ) (params : Bytes)
    → t.state ≡ in_data
    → (cmd == iac) ≡ false
    → decode t (subneg cmd params) ≡ (
      record t { sub = [] },
      record {
        payload = [];
        reply = [];
        notices = to_list (subnegotiation (opt_com_port ∷ cmd ∷ params));
      },
    )
unfolding decode
decode-subneg t cmd params h c =
    rw (← append-nil (subneg cmd params))
      (decode_onto-subneg t nothing cmd params [] h c ∙ unfold decode_onto in refl)
