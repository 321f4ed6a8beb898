-- ===== src/Pty/Link/Lives/Lasting.antt =====
-- A process that has the link of a path whose sidecar is not stale, or claims it: what each of its
-- calls leaves.
use ttyforge.Common.{
  if-holds, ℕ, ◌≤◌, ◌≡◌, refl, sym, ap, ◌∙◌, ◌≢◌, ◌⊎◌, inl, inr, Bool, true, false, Option, none,
  some,
}
use ttyforge.Common.Text.{Text}
use ttyforge.Common.Decimal.{decimal}
use ttyforge.Pty.Link.{Files, sidecar, pid_sidecar_is_stale, claimed, busy, failed}
use ttyforge.Pty.Link.Retry.{IsStale}
use ttyforge.Pty.Link.Pid.{pid_sidecar_is_stale-decimal}
use ttyforge.Pty.Link.Calls.{Phase, linking, found, clearing, half_cleared, seen, ended, call}
use ttyforge.Pty.Link.Calls.Calm.{Links, Calm, call-Moves}
use ttyforge.Pty.Link.Lives.{
  Life, claiming, recording, giving_up, holding, half_dropped, left, claim_over, live,
}
use mathlib.Core.Path.{fun_ext, subst}

-- What a life relies on of the machine beside `Links`: the processes that live live on; a sidecar that
-- is written is written whole or not at all; a removal changes nothing but the file removed.
pub record Machine {S : Type 0} (fs : Files S) (path : Text) : Type 0 where
  pub links : Links fs path
  pub alive : Bool × ℕ → Bool
  pub probes : (pid : Bool × ℕ) (s : S) → fs.process_alive pid s ≡ alive pid
  pub written-there :
      (text : Text) (s : S) → links.is_there (fs.write (sidecar path) text s).0 ≡ links.is_there s
  pub written-reads :
      (text : Text) (s : S)
      → let contents = fs.read_to_string (sidecar path) (fs.write (sidecar path) text s).0 in
        (contents ≡ some text) ⊎ (contents ≡ fs.read_to_string (sidecar path) s)
  pub unlinked-reads :
      (s : S)
      → fs.read_to_string (sidecar path) (fs.remove_file path s).0
        ≡ fs.read_to_string (sidecar path) s
  pub unrecorded-there :
      (s : S) → links.is_there (fs.remove_file (sidecar path) s).0 ≡ links.is_there s
  pub unrecorded-reads :
      (s : S)
      → let contents = fs.read_to_string (sidecar path) (fs.remove_file (sidecar path) s).0 in
        (contents ≡ none) ⊎ (contents ≡ fs.read_to_string (sidecar path) s)

-- A process that has the link, from the call that made it to the one that removes it.
abbrev pub HasLink : Life → Type 0
HasLink (claiming p) = p ≡ ended claimed
HasLink recording = Unit
HasLink giving_up = Unit
HasLink holding = Unit
HasLink half_dropped = ⊥
HasLink left = ⊥

module _ {S : Type 0} (fs : Files S) (path : Text) (machine : Machine fs path) where
  open machine use {
    links, alive, probes, written-there, written-reads, unlinked-reads, unrecorded-there,
    unrecorded-reads,
  }
  open links use {is_there}

  -- The verdict on a sidecar, which no call changes.
  abbrev judged : Option Text → Option Bool
  judged contents = pid_sidecar_is_stale contents alive

  verdict-judged :
      (contents : Option Text) (s : S)
      → pid_sidecar_is_stale contents (λ pid. fs.process_alive pid s) ≡ judged contents
  verdict-judged contents s = ap (pid_sidecar_is_stale contents) (fun_ext λ pid. probes pid s)

  -- A process whose claim is calm, and whose link is there once it has it.
  abbrev pub CalmLife : S → Life → Type 0
  CalmLife s (claiming p) = Calm fs path links s p
  CalmLife s recording = is_there s ≡ true
  CalmLife s giving_up = is_there s ≡ true
  CalmLife s holding = is_there s ≡ true
  CalmLife s half_dropped = Unit
  CalmLife s left = Unit

  pub CalmLife-there : (s : S) (l : Life) → HasLink l → CalmLife s l → is_there s ≡ true
  CalmLife-there s (claiming p) h c = subst (Calm fs path links s) h c refl
  CalmLife-there s recording h c = c
  CalmLife-there s giving_up h c = c
  CalmLife-there s holding h c = c
  CalmLife-there s half_dropped h c = absurd h
  CalmLife-there s left h c = absurd h

  Calm-kept :
      (s s' : S) (p : Phase)
      → (p ≡ ended claimed → is_there s' ≡ true)
      → Calm fs path links s p
      → Calm fs path links s' p
  Calm-kept s s' linking k c = tt
  Calm-kept s s' found k c = tt
  Calm-kept s s' (seen contents) k c =
      λ d. c (verdict-judged contents s ∙ sym (verdict-judged contents s') ∙ d)
  Calm-kept s s' clearing k c = c
  Calm-kept s s' half_cleared k c = c
  Calm-kept s s' (ended a) k c = λ e. k (ap ended e)

  -- A process stays calm where its link stays.
  pub CalmLife-kept :
      (s s' : S) (l : Life) → (HasLink l → is_there s' ≡ true) → CalmLife s l → CalmLife s' l
  CalmLife-kept s s' (claiming p) k c = Calm-kept s s' p k c
  CalmLife-kept s s' recording k c = k tt
  CalmLife-kept s s' giving_up k c = k tt
  CalmLife-kept s s' holding k c = k tt
  CalmLife-kept s s' half_dropped k c = tt
  CalmLife-kept s s' left k c = tt

  -- What a call of a process leaves: its own calm, no stale sidecar, and the link where it has none of
  -- its own; and it gets the link only where there was none.
  pub record Lasts (s s' : S) (l l' : Life) : Type 0 where
    pub calm : CalmLife s' l'
    pub not_stale : ¬ IsStale fs path s'
    pub kept : ¬ HasLink l → is_there s ≡ true → is_there s' ≡ true
    pub taken : HasLink l' → HasLink l ⊎ (is_there s ≡ false)

  claim_over-CalmLife : (s : S) (p : Phase) → Calm fs path links s p → CalmLife s (claim_over p)
  claim_over-CalmLife s linking c = c
  claim_over-CalmLife s found c = c
  claim_over-CalmLife s (seen contents) c = c
  claim_over-CalmLife s clearing c = c
  claim_over-CalmLife s half_cleared c = c
  claim_over-CalmLife s (ended claimed) c = c refl
  claim_over-CalmLife s (ended busy) c = c
  claim_over-CalmLife s (ended failed) c = c

  claim_over-HasLink : (p : Phase) → HasLink (claim_over p) → p ≡ ended claimed
  claim_over-HasLink linking h = h
  claim_over-HasLink found h = h
  claim_over-HasLink (seen contents) h = h
  claim_over-HasLink clearing h = h
  claim_over-HasLink half_cleared h = h
  claim_over-HasLink (ended claimed) h = refl
  claim_over-HasLink (ended busy) h = h
  claim_over-HasLink (ended failed) h = h

  -- A sidecar that is none, or whose process lives, or that was there before, is not stale.
  not-IsStale-read :
      (s : S) (contents : Option Text)
      → fs.read_to_string (sidecar path) s ≡ contents
      → judged contents ≢ some true
      → ¬ IsStale fs path s
  not-IsStale-read s contents e h d =
      h (ap judged (sym e) ∙ sym (verdict-judged (fs.read_to_string (sidecar path) s) s) ∙ d)

  judged-not-IsStale :
      (s : S) → ¬ IsStale fs path s → judged (fs.read_to_string (sidecar path) s) ≢ some true
  judged-not-IsStale s h d = h (verdict-judged (fs.read_to_string (sidecar path) s) s ∙ d)

  judged_own :
      (pid : ℕ)
      → pid ≤ 0x7fff_ffff
      → alive (false, pid) ≡ true
      → judged (some (decimal pid)) ≢ some true
  judged_own pid small here d =
      let e = rw here at (pid_sidecar_is_stale-decimal pid alive small) in cc

  judged-none : judged none ≢ some true
  unfolding pid_sidecar_is_stale
  judged-none d = cc

  pub live-Lasts :
      (slave : Text) (pid : ℕ) (l : Life) (s : S)
      → pid ≤ 0x7fff_ffff
      → alive (false, pid) ≡ true
      → CalmLife s l
      → ¬ IsStale fs path s
      → let (l', s') = live fs path slave pid l s in Lasts s s' l l'
  unfolding live
  live-Lasts slave pid (claiming p) s small here c h =
      let (p', s') = call fs path slave p s in
      let m = call-Moves fs path links slave p s c h in
      record {
        calm = claim_over-CalmLife s' p' m.calm;
        not_stale = m.not_stale;
        kept = λ no there. m.others (ended claimed) (λ e. there) refl;
        taken = λ d. m.taken (claim_over-HasLink p' d);
      }
  live-Lasts slave pid recording s small here c h =
      let (s', done) = fs.write (sidecar path) (decimal pid) s in
      let there : is_there s' ≡ true = written-there (decimal pid) s ∙ c in
      record {
        calm = if-holds (CalmLife s') done there there;
        not_stale = elim (written-reads (decimal pid) s) [
          | inl e ↦ not-IsStale-read s' _ e (judged_own pid small here)
          | inr e ↦ not-IsStale-read s' _ e (judged-not-IsStale s h)
        ];
        kept = λ no there. absurd (no tt);
        taken = λ d. inl tt;
      }
  live-Lasts slave pid giving_up s small here c h = record {
    calm = tt;
    not_stale = not-IsStale-read _ _ (unlinked-reads s) (judged-not-IsStale s h);
    kept = λ no there. absurd (no tt);
    taken = λ d. absurd d;
  }
  live-Lasts slave pid holding s small here c h = record {
    calm = tt;
    not_stale = not-IsStale-read _ _ (unlinked-reads s) (judged-not-IsStale s h);
    kept = λ no there. absurd (no tt);
    taken = λ d. absurd d;
  }
  live-Lasts slave pid half_dropped s small here c h = record {
    calm = tt;
    not_stale = elim (unrecorded-reads s) [
      | inl e ↦ not-IsStale-read _ _ e judged-none
      | inr e ↦ not-IsStale-read _ _ e (judged-not-IsStale s h)
    ];
    kept = λ no there. unrecorded-there s ∙ there;
    taken = λ d. absurd d;
  }
  live-Lasts slave pid left s small here c h = record {
    calm = tt;
    not_stale = h;
    kept = λ no there. there;
    taken = λ d. absurd d;
  }
