-- ===== src/Mux/System/Copies.antt =====
-- What each consumer of src/forge/mux.rs has of the device's reads, and what it has lost of them.
use ttyforge.Common.{
  Bytes, length, length-append, flatten-snoc, ℕ, ◌+◌, ◌≤◌, ◌≡◌, refl, sym, ap, ◌∙◌, ◌⊎◌, inl, inr,
  List, [], ◌∷◌, ◌++◌, append-nil, append_assoc, arith,
}
use ttyforge.Common.Family.{update_all}
use ttyforge.Wire.Float.{Float64}
use ttyforge.Wire.Plan.{Cell, Wire}
use ttyforge.Wire.Plan.Payload.{payload}
use ttyforge.Wire.Delivery.{Pump}
use ttyforge.Wire.Delivery.Recorded.{recorder, IsClean, deliver-IsClean}
use ttyforge.Mux.{chunk, lagged, device_reader, consumer_round, to_consumer}
use ttyforge.Mux.Channels.{backlog, tx_queue, Broadcast, Mpsc}
use ttyforge.Mux.System.{
  publish, Mux, started, Step, reads, takes, lags, types, sends, writes, Reach, start, later,
}
use mathlib.Core.List.{flatten}
use mathlib.Core.Path.{subst}

-- A copy of `done` from which `n` reads are missing.
pub data Missed : List Bytes → List Bytes → ℕ → Type 0 where
  begun : Missed [] [] 0
  kept :
      {done copy : List Bytes} {n : ℕ}
      → Missed done copy n
      → (b : Bytes) → Missed (done ++ b ∷ []) (copy ++ b ∷ []) n
  dropped :
      {done copy : List Bytes} {n : ℕ}
      → Missed done copy n
      → (bs : List Bytes) → Missed (done ++ bs) copy (n + length bs)

Missed-kept :
    {done copy : List Bytes} {n : ℕ}
    → Missed done copy n
    → (bs : List Bytes) → Missed (done ++ bs) (copy ++ bs) n
Missed-kept {done} {copy} {n} m [] = rw (append-nil done, append-nil copy) m
Missed-kept {done} {copy} {n} m (b ∷ bs) =
    let whole = Missed-kept (kept m b) bs in
    rw (← append_assoc done (b ∷ []) bs, ← append_assoc copy (b ∷ []) bs) whole

-- What a port has of the reads, `ahead` being those it has still to take: of the `early` ones all
-- but for whole reads, as many as it was told, and the `late` ones, all of them. Where it has lost any,
-- `backlog` reads at least have come behind the early ones.
pub record IsCopied (fl : Float64) (read ahead : List Bytes) (p : Pump fl.F (List Cell)) (lost : ℕ)
    : Type 0 where
  pub early : List Bytes
  pub copy : List Bytes
  pub late : List Bytes
  pub split : read ≡ early ++ (late ++ ahead)
  pub missed : Missed early copy lost
  pub heard : payload p.sink ≡ flatten (copy ++ late)
  pub clean : IsClean fl p.wire
  pub recent : (lost ≡ 0) ⊎ (backlog ≤ length (late ++ ahead))

module _ (fl : Float64) where
  open fl use {F}

  IsCopied-read :
      (read ahead bs : List Bytes) (p : Pump F (List Cell)) (lost : ℕ)
      → IsCopied fl read ahead p lost
      → IsCopied fl (read ++ bs) (ahead ++ bs) p lost
  IsCopied-read read ahead bs p lost h = record {
    early = h.early;
    copy = h.copy;
    late = h.late;
    split = rw (h.split) (
        append_assoc h.early (h.late ++ ahead) bs
        ∙ ap (λ v. h.early ++ v) (append_assoc h.late ahead bs));
    missed = h.missed;
    heard = h.heard;
    clean = h.clean;
    recent = elim (h.recent) [
      | inl z ↦ inl z
      | inr le ↦ inr (
          omega (
            arith,
            ap length (append_assoc h.late ahead bs),
            length-append {0} (h.late ++ ahead) bs,
          ))
    ];
  }

  IsCopied-taken :
      (read ahead : List Bytes) (b : Bytes) (p : Pump F (List Cell)) (lost now : ℕ)
      → IsCopied fl read (b ∷ ahead) p lost
      → IsCopied fl read ahead
          (to_consumer fl recorder (record p { clock = now }) (chunk b ∷ []))
          lost
  unfolding to_consumer consumer_round
  IsCopied-taken read ahead b p lost now h =
      let (c, _, e) = deliver-IsClean fl now p.wire b p.sink h.clean in
      record {
        early = h.early;
        copy = h.copy;
        late = h.late ++ b ∷ [];
        split = h.split ∙ ap (λ v. h.early ++ v) (sym (append_assoc h.late (b ∷ []) ahead));
        missed = h.missed;
        heard =
            e
            ∙ ap (λ v. v ++ b) h.heard
            ∙ sym (flatten-snoc (h.copy ++ h.late) b)
            ∙ ap flatten (append_assoc h.copy h.late (b ∷ []));
        clean = c;
        recent = rw (append_assoc h.late (b ∷ []) ahead) (h.recent);
      }

  IsCopied-lagged :
      (read ahead bs : List Bytes) (p : Pump F (List Cell)) (lost : ℕ)
      → length ahead ≡ backlog
      → IsCopied fl read (bs ++ ahead) p lost
      → IsCopied fl read ahead p (lost + length bs)
  IsCopied-lagged read ahead bs p lost l h = record {
    early = (h.early ++ h.late) ++ bs;
    copy = h.copy ++ h.late;
    late = [];
    split =
        h.split
        ∙ ap (λ v. h.early ++ v) (sym (append_assoc h.late bs ahead))
        ∙ sym (append_assoc h.early (h.late ++ bs) ahead)
        ∙ ap (λ v. v ++ ahead) (sym (append_assoc h.early h.late bs));
    missed = dropped (Missed-kept h.missed h.late) bs;
    heard = h.heard ∙ ap flatten (sym (append-nil (h.copy ++ h.late)));
    clean = h.clean;
    recent = inr (omega (arith, l));
  }

  module _ (bc : Broadcast backlog) (mp : Mpsc tx_queue) where
    open bc use {
      Channel, pending, pending-fresh, pending-send, recv-chunk, recv-lagged, recv-others,
    }

    pending-publish :
        (bs : List Bytes) (c : Channel) (i : ℕ)
        → pending (publish fl bc mp bs c) i ≡ pending c i ++ bs
    unfolding publish
    pending-publish [] c i = sym (append-nil (pending c i))
    pending-publish (b ∷ bs) c i =
        pending-publish bs (bc.send b c) i
        ∙ rw (pending-send b c i) (append_assoc (pending c i) (b ∷ []) bs)

    -- What the port `i` has.
    abbrev pub At : Mux fl bc mp → ℕ → Type 0
    At m i = IsCopied fl m.read (pending m.channel i) (m.ports i) (m.lost i)

    Step-At :
        (n : ℕ) {m m' : Mux fl bc mp}
        → Step fl bc mp n m m'
        → ((i : ℕ) → At m i)
        → (i : ℕ) → At m' i
    Step-At n {m} (reads r) h = λ i. rw (pending-publish (device_reader (r ∷ [])).0 m.channel i) (
        IsCopied-read m.read (pending m.channel i) (device_reader (r ∷ [])).0 (m.ports i) (m.lost i)
          (h i))
    Step-At n {m} (takes j now b c lt e) h =
        update_all (λ i p. IsCopied fl m.read (pending c i) p (m.lost i)) m.ports j _
          (IsCopied-taken m.read (pending c j) b (m.ports j) (m.lost j) now (
            subst (λ a. IsCopied fl m.read a (m.ports j) (m.lost j)) (recv-chunk j b m.channel c e)
              (h j)))
          (λ i ne. rw (recv-others j i (chunk b) m.channel c e ne) (h i))
    Step-At n {m} (lags j k c lt e) h =
        let (bs, split, count, full) = recv-lagged j k m.channel c e in
        update_all (λ i l. IsCopied fl m.read (pending c i) (m.ports i) l) m.lost j _
          (subst (λ l. IsCopied fl m.read (pending c j) (m.ports j) (m.lost j + l)) count
            (IsCopied-lagged m.read (pending c j) bs (m.ports j) (m.lost j) full
              (subst (λ a. IsCopied fl m.read a (m.ports j) (m.lost j)) split (h j))))
          (λ i ne. rw (recv-others j i (lagged k) m.channel c e ne) (h i))
    Step-At n (types j now b lt e) h = h
    Step-At n (sends j b bs q lt e p) h = h
    Step-At n (writes now b q p) h = h

    -- Over lossless, clean wires and ports that take every write, whatever the order in which the
    -- tasks run: a consumer has the bytes that were read from the device up to where it is, in
    -- order, but for whole reads, of which there are as many as it was told that it lost; those that
    -- it has still to take follow; and where it has lost any, the last `backlog` reads at least have
    -- none of them missing.
    pub Reach-IsCopied :
        (n now : ℕ) (wires : ℕ → Wire F × Wire F) (m : Mux fl bc mp) (i : ℕ)
        → ((j : ℕ) → IsClean fl (wires j).0)
        → Reach fl bc mp n now wires m
        → IsCopied fl m.read (pending m.channel i) (m.ports i) (m.lost i)
    unfolding started flatten
    Reach-IsCopied n now wires m i clean start = record {
      early = [];
      copy = [];
      late = [];
      split = sym (pending-fresh i);
      missed = begun;
      heard = refl;
      clean = clean i;
      recent = inl refl;
    }
    Reach-IsCopied n now wires m i clean (later {m = before} r s) =
        Step-At n s (λ j. Reach-IsCopied n now wires before j clean r) i
