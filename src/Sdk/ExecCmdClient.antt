-- ===== src/Sdk/ExecCmdClient.antt =====
-- `ExecCmdClientImpl` of src/sdk/svc/node/exec_cmd_client.cpp: it sends its request once the channel is
-- connected, collects the responses of the nodes, and gives its receiver the result.
--
-- `results` lists what the receiver was called with, latest first.
use mathlib.Core.Path.{subst}
use yakut_native.Base.{
  ℕ, ◌≡◌, refl, sym, ap, ◌∙◌, Bool, true, false, List, [], ◌∷◌, ℤ, pos, arith, is_zero, Map, find,
  contains, insert, find-insert, contains-find, if◌then◌else◌,
}
use yakut_native.Daemon.ExecCmdService.{Answer}

pub data Result : Type 0 where
  success : Map Answer → Result
  failure : ℤ → Result

pub record ExecCmdClient : Type 0 where
  pub node_id_to_response : Map Answer
  pub results : List Result

-- The events of the channel. `connected` has the result of sending the request.
pub data ChannelEvent : Type 0 where
  connected completed : ℤ → ChannelEvent
  input : ℕ → Answer → ChannelEvent

unfoldable pub receive : Result → ExecCmdClient → ExecCmdClient
receive result s = record s { results = result ∷ s.results }

unfoldable pub handle_event : ChannelEvent → ExecCmdClient → ExecCmdClient
unfolding receive
handle_event (connected send_err) s = if is_zero send_err then s else receive (failure send_err) s
handle_event (input node answer) s = record s {
  node_id_to_response = insert node answer s.node_id_to_response;
}
handle_event (completed err) s =
    if is_zero err then receive (success s.node_id_to_response) s else receive (failure err) s

unfoldable pub handle_all : List ChannelEvent → ExecCmdClient → ExecCmdClient
handle_all [] s = s
handle_all (e ∷ es) s = handle_all es (handle_event e s)

-- The responses of nodes, as events.
abbrev pub inputs : Map Answer → List ChannelEvent
inputs [] = []
inputs ((node, answer) ∷ rs) = input node answer ∷ inputs rs

-- The results of a list of responses: none yet, and for each node the first that came.
collected :
    (rs : Map Answer) (s : ExecCmdClient)
    → let t = handle_all (inputs rs) s in
      (t.results ≡ s.results)
      × ((n : ℕ)
          → find n t.node_id_to_response ≡ (
              if contains n s.node_id_to_response then find n s.node_id_to_response else find n rs))
unfolding handle_all
collected [] s = (refl, λ n. unfold find in ground (arith, contains-find n s.node_id_to_response))
collected ((node, answer) ∷ rs) s = (
  (collected rs (handle_event (input node answer) s)).0 ∙ unfold handle_event in refl,
  λ n.
      (collected rs (handle_event (input node answer) s)).1 n
      ∙ unfold handle_event find in
        ground (
          arith,
          find-insert n node answer s.node_id_to_response,
          contains-find n (insert node answer s.node_id_to_response),
          contains-find n s.node_id_to_response,
          contains-find node s.node_id_to_response,
        ),
)

-- When the request could be sent, and responses came, and the channel ended: the receiver is called
-- once. For an end with success it is given, for every node, its first response, and nothing for the
-- nodes that sent none; otherwise it is given the error.
pub handle_all_reports :
    (rs : Map Answer) (s : ExecCmdClient) (err : ℤ)
    → s.node_id_to_response ≡ []
    → (m : Map Answer) × ((n : ℕ) → find n m ≡ find n rs)
      × ((handle_event
            (completed err)
            (handle_all (inputs rs) (handle_event (connected (pos 0)) s))).results
          ≡ (if is_zero err then success m else failure err) ∷ s.results)
handle_all_reports rs s err none_yet = (t.node_id_to_response, firsts, told)
  where
    u : ExecCmdClient
    u = handle_event (connected (pos 0)) s

    t : ExecCmdClient
    t = handle_all (inputs rs) u

    u_empty : u.node_id_to_response ≡ []
    u_empty = unfold handle_event in none_yet

    firsts : (n : ℕ) → find n t.node_id_to_response ≡ find n rs
    firsts n =
        (collected rs u).1 n
        ∙ ground (arith, contains-find n u.node_id_to_response, u_empty, missing n)
      where
        missing : (k : ℕ) → contains k u.node_id_to_response ≡ false
        missing k =
            subst (λ (m : Map Answer). contains k m ≡ false) (sym u_empty) (unfold contains in refl)

    told :
        (handle_event (completed err) t).results
        ≡ (if is_zero err then success t.node_id_to_response else failure err) ∷ s.results
    told = ends (is_zero err) refl
      where
        kept : t.results ≡ s.results
        kept = (collected rs u).0 ∙ unfold handle_event in refl

        ends :
            (b : Bool)
            → is_zero err ≡ b
            → (handle_event (completed err) t).results
              ≡ (if is_zero err then success t.node_id_to_response else failure err) ∷ s.results
        ends true z =
            unfold handle_event receive in
            rw (z, handle_event) (ap (λ (l : List Result). success t.node_id_to_response ∷ l) kept)
        ends false z =
            unfold handle_event receive in
            rw (z, handle_event) (ap (λ (l : List Result). failure err ∷ l) kept)
