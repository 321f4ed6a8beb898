-- ===== src/Sim/Device/Driven.antt =====
-- A preset behind a port is its device fed with what is typed, however the typing is read and paced.
use ttyforge.Common.{
  if◌then◌else◌, Bytes, ◌>>=◌, ℕ, max, ◌≡◌, refl, sym, ap, ◌∙◌, true, Option, none, some, List, [],
  ◌∷◌, ◌++◌, append-nil, append_assoc,
}
use ttyforge.Common.Text.{Decoder}
use ttyforge.Wire.Float.{Float64}
use ttyforge.Wire.Plan.{Cell, plan}
use ttyforge.Wire.Plan.Payload.{payload}
use ttyforge.Wire.Delivery.{Read, no_consumer, got, read_failed}
use ttyforge.Wire.Delivery.Recorded.{
  recorder, read_bytes, IsClean, plan-IsClean, plan-payload_clean, deliver-IsClean,
}
use ttyforge.Sim.Line.{behind, followed, feed}
use ttyforge.Sim.Line.Editing.{feed-append}
use ttyforge.Sim.At.{at_handler}
use ttyforge.Sim.Shell.Handler.{shell_handler}
use ttyforge.Sim.Device.{
  Device, echo_device, at_device, shell_device, back, Preset, device_feed, respond, preset_cells,
  preset_round, preset_loop,
}
use mathlib.Core.Path.{subst}

module _ (dec : Decoder) where
  back_behind :
      {A : Type 0} (f : A → Device) (out : Bytes) (o : Option (A × Bytes))
      → back f (behind out o) ≡ behind out (back f o)
  back_behind f out none = refl
  back_behind f out (some (a, p)) = refl

  back_followed :
      {A : Type 0} (f : A → Device) (o : Option (A × Bytes)) (g : A → Option (A × Bytes))
      (h : Device → Option (Device × Bytes))
      → ((a : A) → back f (g a) ≡ h (f a))
      → back f (followed o g) ≡ followed (back f o) h
  back_followed f none g h e = refl
  back_followed f (some (a, out)) g h e = back_behind f out (g a) ∙ ap (behind out) (e a)

  device_feed-nil : (d : Device) → device_feed dec d [] ≡ some (d, [])
  unfolding device_feed feed
  device_feed-nil echo_device = refl
  device_feed-nil (at_device d) = refl
  device_feed-nil (shell_device d) = refl

  -- Input in two pieces is input in one.
  pub device_feed-append :
      (d : Device) (xs ys : Bytes)
      → device_feed dec d (xs ++ ys) ≡ followed (device_feed dec d xs) (λ d'. device_feed dec d' ys)
  unfolding device_feed
  device_feed-append echo_device xs ys = refl
  device_feed-append (at_device d) xs ys =
      ap (back at_device) (feed-append dec at_handler d xs ys)
      ∙ back_followed at_device (feed dec at_handler d xs) _ _ (λ a. refl)
  device_feed-append (shell_device d) xs ys =
      ap (back shell_device) (feed-append dec shell_handler d xs ys)
      ∙ back_followed shell_device (feed dec shell_handler d xs) _ _ (λ a. refl)

  module _ (fl : Float64) where
    open fl use {F}

    -- A preset that is up, between two clean wires, with the device `d` and `b` at the port.
    pub record IsDriven (p : Preset F (List Cell)) (d : Device) (b : Bytes) : Type 0 where
      pub at : p.device ≡ d
      pub clean_in : IsClean fl p.wire_in
      pub clean_out : IsClean fl p.wire_out
      pub up : p.going ≡ true
      pub at_port : payload p.port ≡ b

    -- A run with the port at `b` before it does what the device does: it panics, or it is up, with
    -- what the device gave behind `b`.
    abbrev pub Follows : Option (Device × Bytes) → Option (Preset F (List Cell)) → Bytes → Type 0
    Follows none r b = r ≡ none
    Follows (some (d, out)) r b =
        (q : Preset F (List Cell)) × (r ≡ some q) × IsDriven q d (b ++ out)

    Follows-behind :
        (out : Bytes) (o : Option (Device × Bytes)) (r : Option (Preset F (List Cell))) (b : Bytes)
        → Follows o r (b ++ out)
        → Follows (behind out o) r b
    Follows-behind out none r b h = h
    Follows-behind out (some (d, more)) r b (q, e, h) =
        (q, e, subst (IsDriven q d) (append_assoc b out more) h)

    -- One run behind another.
    Follows-then :
        (o : Option (Device × Bytes)) (f : Device → Option (Device × Bytes))
        (r : Option (Preset F (List Cell)))
        (g : Preset F (List Cell) → Option (Preset F (List Cell))) (b : Bytes)
        → Follows o r b
        → ((q : Preset F (List Cell)) (d : Device) (c : Bytes)
            → IsDriven q d c
            → Follows (f d) (g q) c)
        → Follows (followed o f) (r >>= g) b
    Follows-then none f r g b h k = ap (λ x. x >>= g) h
    Follows-then (some (d, out)) f r g b (q, e, h) k =
        Follows-behind out (f d) (r >>= g) b
          (subst (λ x. Follows (f d) x (b ++ out)) (sym (ap (λ x. x >>= g) e)) (k q d (b ++ out) h))

    respond-IsDriven :
        (p : Preset F (List Cell)) (d e : Device) (out b : Bytes) (now : ℕ)
        → IsDriven p d b
        → IsDriven (respond dec fl recorder p (e, out) now) e (b ++ out)
    unfolding respond
    respond-IsDriven p d e out b now h =
        let (c, u, s) = deliver-IsClean fl now p.wire_out out p.port h.clean_out in
        record {
          at = refl;
          clean_in = h.clean_in;
          clean_out = c;
          up = u;
          at_port = s ∙ ap (λ x. x ++ out) h.at_port;
        }

    -- The loop over the cells behind a response.
    after : Preset F (List Cell) → Cell → List Cell → Device × Bytes → Option (Preset F (List Cell))
    after p c cells r =
        let p' = respond dec fl recorder p r (max p.clock c.due) in
        if p'.going then preset_cells dec fl recorder p' cells else some p'

    answered :
        (o : Option (Device × Bytes)) (p : Preset F (List Cell)) (c : Cell) (cells : List Cell)
        (d : Device) (b : Bytes)
        → IsDriven p d b
        → ((q : Preset F (List Cell)) (e : Device) (a : Bytes)
            → IsDriven q e a
            → Follows (device_feed dec e (payload cells)) (preset_cells dec fl recorder q cells) a)
        → Follows (followed o (λ e. device_feed dec e (payload cells))) (o >>= after p c cells) b
    unfolding after
    answered none p c cells d b h k = refl
    answered (some (e, out)) p c cells d b h k =
        let p' = respond dec fl recorder p (e, out) (max p.clock c.due) in
        let h' = respond-IsDriven p d e out b (max p.clock c.due) h in
        let rest = preset_cells dec fl recorder p' cells in
        Follows-behind out (device_feed dec e (payload cells)) (if p'.going then rest else some p')
          b
          (subst (λ x. Follows (device_feed dec e (payload cells)) x (b ++ out))
            (sym (λ i. if h'.up i then rest else some p')) (k p' e (b ++ out) h'))

    preset_cells-Follows :
        (cells : List Cell) (p : Preset F (List Cell)) (d : Device) (b : Bytes)
        → IsDriven p d b
        → Follows (device_feed dec d (payload cells)) (preset_cells dec fl recorder p cells) b
    unfolding preset_cells after
    preset_cells-Follows [] p d b h =
        subst (λ o. Follows o (some p) b) (sym (device_feed-nil d))
          (p, refl, subst (IsDriven p d) (sym (append-nil b)) h)
    preset_cells-Follows (c ∷ cells) p d b h =
        subst (λ x. Follows x (preset_cells dec fl recorder p (c ∷ cells)) b)
          (sym (device_feed-append d c.bytes (payload cells)))
          (subst
            (λ x.
              Follows
                (followed (device_feed dec d c.bytes) (λ e. device_feed dec e (payload cells))) x b)
            (sym (ap (λ v. device_feed dec v c.bytes >>= after p c cells) h.at))
            (answered (device_feed dec d c.bytes) p c cells d b h
              (λ q e a g. preset_cells-Follows cells q e a g)))

    idle :
        (p : Preset F (List Cell)) (d : Device) (b : Bytes) (t : ℕ)
        → IsDriven p d b
        → Follows (device_feed dec d []) (some (record p { clock = t })) b
    idle p d b t h =
        subst (λ o. Follows o (some (record p { clock = t })) b) (sym (device_feed-nil d))
          (
            record p { clock = t },
            refl,
            record {
              at = h.at;
              clean_in = h.clean_in;
              clean_out = h.clean_out;
              up = h.up;
              at_port = h.at_port ∙ sym (append-nil b);
            },
          )

    preset_round-Follows :
        (r : Read) (p : Preset F (List Cell)) (d : Device) (b : Bytes)
        → IsDriven p d b
        → Follows (device_feed dec d (read_bytes fl (r ∷ []))) (preset_round dec fl recorder p r) b
    unfolding preset_round
    preset_round-Follows no_consumer p d b h = idle p d b _ h
    preset_round-Follows read_failed p d b h = idle p d b _ h
    preset_round-Follows (got bytes) p d b h =
        let (w', cells) = plan fl p.clock p.wire_in bytes in
        subst (λ x. Follows (device_feed dec d x) (preset_round dec fl recorder p (got bytes)) b)
          (plan-payload_clean fl p.clock p.wire_in bytes h.clean_in ∙ sym (append-nil bytes))
          (preset_cells-Follows cells (record p { wire_in = w' }) d b
            record {
              at = h.at;
              clean_in = plan-IsClean fl p.clock p.wire_in bytes h.clean_in;
              clean_out = h.clean_out;
              up = h.up;
              at_port = h.at_port;
            })

    read_bytes-cons :
        (r : Read) (rs : List Read)
        → read_bytes fl (r ∷ []) ++ read_bytes fl rs ≡ read_bytes fl (r ∷ rs)
    read_bytes-cons no_consumer rs = refl
    read_bytes-cons read_failed rs = refl
    read_bytes-cons (got bytes) rs = ap (λ x. x ++ read_bytes fl rs) (append-nil bytes)

    preset_loop-Follows :
        (rs : List Read) (p : Preset F (List Cell)) (d : Device) (b : Bytes)
        → IsDriven p d b
        → Follows (device_feed dec d (read_bytes fl rs)) (preset_loop dec fl recorder p rs) b
    unfolding preset_loop
    preset_loop-Follows [] p d b h =
        subst (λ o. Follows o (some p) b) (sym (device_feed-nil d))
          (p, refl, subst (IsDriven p d) (sym (append-nil b)) h)
    preset_loop-Follows (r ∷ rs) p d b h =
        let round = preset_round dec fl recorder p r in
        let next = round >>= λ q. preset_loop dec fl recorder q rs in
        let here = read_bytes fl (r ∷ []) in
        let fed = device_feed-append d here (read_bytes fl rs) in
        subst (λ x. Follows x (if p.going then next else some p) b)
          (sym fed ∙ ap (device_feed dec d) (read_bytes-cons r rs))
          (subst
            (λ x.
              Follows
                (followed (device_feed dec d here) (λ e. device_feed dec e (read_bytes fl rs))) x b)
            (sym (λ i. if h.up i then next else some p))
            (Follows-then (device_feed dec d here) (λ e. device_feed dec e (read_bytes fl rs)) round
              (λ q. preset_loop dec fl recorder q rs) b (preset_round-Follows r p d b h)
              (λ q e c g. preset_loop-Follows rs q e c g)))

    -- A preset that is up, over lossless, clean wires, whatever their rates, latencies and jitters, and
    -- a port that accepts every write: where its device, fed at once with all the bytes that are
    -- read, panics, the loop panics, and else it goes on, the device is in the state that this leaves
    -- it in, and the port has received what it gives, however the reads and the cells cut the input.
    pub preset_loop-device_feed :
        (p : Preset F (List Cell)) (rs : List Read)
        → IsClean fl p.wire_in
        → IsClean fl p.wire_out
        → p.going ≡ true
        → Follows
            (device_feed dec p.device (read_bytes fl rs))
            (preset_loop dec fl recorder p rs)
            (payload p.port)
    preset_loop-device_feed p rs i o g =
        preset_loop-Follows rs p p.device (payload p.port)
          record { at = refl; clean_in = i; clean_out = o; up = g; at_port = refl }
