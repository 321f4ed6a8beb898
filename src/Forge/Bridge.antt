-- ===== src/Forge/Bridge.antt =====
-- `run`, `Peers::bind` and `Peers::describe` of src/forge/bridge.rs.
use ttyforge.Common.{codes, ℕ, Bool, true, not, Option, none, some, [], ◌∷◌, ◌++◌}
use ttyforge.Common.Text.{Text}
use ttyforge.Run.{setup_error, other_error, Outcome, ok, err, Step, ◌then_◌, fail_with, ensure}
use ttyforge.Wire.Float.{Float64}
use ttyforge.Wire.Plan.{WireSpec}
use ttyforge.Pty.Create.{Port, create}
use ttyforge.Status.{Json, announce}
use ttyforge.Bridge.Endpoint.{Parsed, Endpoint, dial, accept, parse}
use ttyforge.Forge.Host.{
  BridgeEnd, interrupted, task_ended, Host, claim_link, with_link, install, in_context,
}

-- `Peers`: what the dialer dials, or the listener.
pub data Peers : Type 0 where
  dial_peer : Text → Peers
  accept_peer : ℕ → Peers

abbrev described : Option Text → Text
described none = codes "?"
described (some a) = a

module _ (fl : Float64) (js : Json fl.F) {S : Type 0} (h : Host fl.F S) where
  open fl use {F}
  open js use {Value, of_text, of_bool, of_map, empty, insert}

  unfoldable pub listening : S × Option ℕ → S × Outcome Peers
  listening (s, none) = (s, err (other_error ∷ other_error ∷ []))
  listening (s, some l) = (s, ok (accept_peer l))

  unfoldable pub bind : Endpoint → Step S Peers
  unfolding listening
  bind (dial addr) s = (s, ok (dial_peer addr))
  bind (accept addr) s = listening (h.listen_on addr s)

  unfoldable pub describe : Peers → S → Text
  describe (dial_peer addr) s = codes "tcp://" ++ addr
  describe (accept_peer l) s = codes "listen://" ++ described (h.local_addr l s)

  unfoldable pub bridge_details : Bool → Text → Value
  bridge_details rfc2217 peer =
      of_map (
        insert (codes "rfc2217") (of_bool rfc2217) (insert (codes "endpoint") (of_text peer) empty))

  -- The loop around the task: a signal ends the run, the end of the task fails it.
  unfoldable pub bridge_result : BridgeEnd → Outcome (Unit {0})
  bridge_result interrupted = ok tt
  bridge_result task_ended = err (other_error ∷ [])

  unfoldable pub bridge_serve : Bool → WireSpec F → Bool → Port → Text → Text → Step S (Unit {0})
  unfolding bridge_result bridge_details
  bridge_serve rfc2217 wire json port path peer =
      install h
      then_ (λ _.
          announce js h.out json h.pid (codes "bridge") (path ∷ []) (bridge_details rfc2217 peer)
            wire)
      then_ (λ _ s. let (s', e) = h.bridge wire rfc2217 port s in (s', bridge_result e))

  -- Behind the parse and the refusals.
  unfoldable pub bridge_open : Endpoint → Option Text → Bool → WireSpec F → Bool → Step S (Unit {0})
  unfolding bind describe bridge_serve
  bridge_open endpoint link rfc2217 wire json = create h.ptys then_ (λ port.
      with_link h (claim_link h link (codes "bridge") port.slave_name) (λ path.
        in_context setup_error (bind endpoint)
        then_ (λ peers s. bridge_serve rfc2217 wire json port path (describe peers s) s)))

  -- Only a dialer can be an RFC2217 client.
  abbrev is_client : Bool → Endpoint → Bool
  is_client rfc2217 (dial addr) = true
  is_client rfc2217 (accept addr) = not rfc2217

  unfoldable pub bridge_parsed :
      Parsed Endpoint → Option Text → Bool → WireSpec F → Bool → Step S (Unit {0})
  unfolding bridge_open
  bridge_parsed (Parsed.err e) link rfc2217 wire json = fail_with (setup_error ∷ other_error ∷ [])
  bridge_parsed (Parsed.ok endpoint) link rfc2217 wire json =
      ensure (is_client rfc2217 endpoint) (setup_error ∷ other_error ∷ [])
      then_ (λ _. bridge_open endpoint link rfc2217 wire json)

  unfoldable pub bridge_run : Text → Option Text → Bool → WireSpec F → Bool → Step S (Unit {0})
  unfolding bridge_parsed
  bridge_run endpoint link rfc2217 wire json = bridge_parsed (parse endpoint) link rfc2217 wire json
