-- ===== src/RosNode/Configure/Receiver/Completes.antt =====
-- From every state that is reached, `configureRx` can come to its end.
use rosaic.Prelude.{
  ℕ, zero, suc, ◌≡◌, ◌≢◌, refl, sym, arith, true, false, Bool-cases, inl, inr, some,
}
use mathlib.Core.Path.{subst}
use rosaic.CallbackHandlers.State.{Handlers}
use rosaic.CallbackHandlers.{got_response, got_descriptor}
use rosaic.RosNode.Text.{Text}
use rosaic.RosNode.Configure.{Config, Command, Script, done, send, await_response, await_cd}
use rosaic.RosNode.Configure.Receiver.{
  Link, is_escape, LinkAction, sent, answered, passed, described, at_message, link_step, Reach, Run,
  stop, go,
}
use rosaic.RosNode.Configure.Receiver.Speaks.{Speaks, silent, last, says}
use rosaic.RosNode.Configure.Receiver.InTurn.{
  under_way, IsCounted, Phase, escapes, describes, speaks, awaits, ended, described-IsCounted,
  Reach-Inv,
}

-- A run to a state in which all is sent and answered.
pub record CanEnd (l : Link) : Type 0 where
  pub steps : ℕ
  pub last : Link
  pub run : Run l steps last
  pub all_sent : last.script ≡ done
  pub all_answered : last.owed ≡ 0

before : (l m : Link) (a : LinkAction) → link_step l a ≡ some m → CanEnd m → CanEnd l
before l m a e c = record {
  steps = suc c.steps;
  last = c.last;
  run = go a e c.run;
  all_sent = c.all_sent;
  all_answered = c.all_answered;
}

abbrev link : Script → Handlers → ℕ → ℕ → Link
link script h owed descriptors = record {
  script = script;
  handlers = h;
  owed = owed;
  descriptors = descriptors;
}

module _ (d : ℕ) where
  all_done : (h : Handlers) → CanEnd (link done h 0 d)
  all_done h = record {
    steps = 0;
    last = link done h 0 d;
    run = stop;
    all_sent = refl;
    all_answered = refl;
  }

  sent_command :
      (command : Command) (rest : Script) (h : Handlers)
      → is_escape command ≡ false
      → link_step (link (send command rest) h 0 d) sent ≡ some (link rest h 1 d)
  unfolding link_step
  sent_command command rest h esc = simp esc refl

  passed_response :
      (rest : Script) (h : Handlers)
      → h.response_received ≡ true
      → link_step (link (await_response rest) h 0 d) passed
        ≡ some (link rest (record h { response_received = false }) 0 d)
  unfolding link_step
  passed_response rest h came = simp came refl

  answered_one :
      (script : Script) (h : Handlers)
      → link_step (link script h 1 d) answered ≡ some (link script (got_response h) 0 d)
  unfolding link_step
  answered_one script h = refl

  -- From where no command is under way, each is sent and answered in its turn.
  speaks-CanEnd : {script : Script} → Speaks script → (h : Handlers) → CanEnd (link script h 0 d)
  speaks-CanEnd silent h = all_done h
  speaks-CanEnd (last command esc) h =
      before _ _ sent (sent_command command done h esc)
        (before _ _ answered (answered_one done h) (all_done (got_response h)))
  speaks-CanEnd (says command {later = rest} esc sp) h =
      let h' = got_response h in
      before _ _ sent (sent_command command (await_response rest) h esc) (
        before _ _ answered (answered_one (await_response rest) h) (
          before _ _ passed (passed_response rest h' refl)
            (speaks-CanEnd sp (record h' { response_received = false }))))

passed_cd :
    (rest : Text → Script) (h : Handlers) (d : ℕ)
    → h.cd_received ≡ true
    → link_step (link (await_cd rest) h 0 d) passed
      ≡ some (link (rest h.rx_tcp_port) (record h { cd_received = false }) 0 d)
unfolding link_step
passed_cd rest h d came = simp came refl

described_one :
    (script : Script) (h : Handlers) (d : ℕ)
    → link_step (link script h 0 (suc d)) (described h.node.rx)
      ≡ some (link script (got_descriptor (at_message h.node.rx h)) 0 d)
unfolding link_step
described_one script h d = refl

unsignalled : (l : Link) → IsCounted l → l.handlers.cd_received ≡ false → l.descriptors ≢ 0
unsignalled l (total, signalled) none_ gone = ground (arith, total, signalled, none_, gone)

signalled-CanEnd :
    (rest : Text → Script) (h : Handlers) (d : ℕ)
    → ((port : Text) → Speaks (rest port))
    → h.cd_received ≡ true
    → CanEnd (link (await_cd rest) h 0 d)
signalled-CanEnd rest h d sp came =
    before _ _ passed (passed_cd rest h d came)
      (speaks-CanEnd d (sp h.rx_tcp_port) (record h { cd_received = false }))

-- Descriptors come until the second is signalled.
describes-CanEnd :
    (rest : Text → Script) (h : Handlers) (d : ℕ)
    → ((port : Text) → Speaks (rest port))
    → IsCounted (link (await_cd rest) h 0 d)
    → CanEnd (link (await_cd rest) h 0 d)
describes-CanEnd rest h zero sp c = elim (Bool-cases h.cd_received) [
  | inl came ↦ signalled-CanEnd rest h 0 sp came
  | inr none_ ↦ absurd (unsignalled (link (await_cd rest) h 0 0) c none_ refl)
]
describes-CanEnd rest h (suc d) sp c =
    let h' = got_descriptor (at_message h.node.rx h) in
    let c' = described-IsCounted (link (await_cd rest) h 0 (suc d)) h.node.rx d refl c in
    before _ _ (described h.node.rx) (described_one (await_cd rest) h d)
      (describes-CanEnd rest h' d sp c')

sent_escape :
    (command : Command) (rest : Script) (h : Handlers) (d : ℕ)
    → is_escape command ≡ true
    → link_step (link (send command rest) h 0 d) sent ≡ some (link rest h 0 d)
unfolding link_step
sent_escape command rest h d esc = simp esc refl

-- One answer is under way: it is to come, or it was signalled.
one_answer :
    (script : Script) (h : Handlers) (owed d : ℕ)
    → under_way (link script h owed d) ≡ 1
    → ((h' : Handlers) → h'.response_received ≡ true → CanEnd (link script h' 0 d))
    → CanEnd (link script h owed d)
one_answer script h zero d e next = next h (ground (arith, e))
one_answer script h (suc owed) d e next =
    let none_left : owed ≡ 0 = omega (arith, e) in
    subst (λ k. CanEnd (link script h (suc k) d)) (sym none_left)
      (before _ _ answered (answered_one d script h) (next (got_response h) refl))

Phase-CanEnd :
    {script : Script} {n : ℕ} (h : Handlers) (owed d : ℕ)
    → under_way (link script h owed d) ≡ n
    → Phase (link script h owed d) script n
    → CanEnd (link script h owed d)
Phase-CanEnd h (suc owed) d e (escapes command rest esc sp c) = absurd (omega (arith, e))
Phase-CanEnd h (suc owed) d e (describes rest sp c) = absurd (omega (arith, e))
Phase-CanEnd h (suc owed) d e (speaks script sp) = absurd (omega (arith, e))
Phase-CanEnd h zero d e (escapes command rest esc sp c) =
    before _ _ sent (sent_escape command (await_cd rest) h d esc) (describes-CanEnd rest h d sp c)
Phase-CanEnd h zero d e (describes rest sp c) = describes-CanEnd rest h d sp c
Phase-CanEnd h zero d e (speaks script sp) = speaks-CanEnd d sp h
Phase-CanEnd h owed d e (awaits rest sp) =
    one_answer _ h owed d e
      λ h' came. before _ _ passed (passed_response d rest h' came) (speaks-CanEnd d sp _)
Phase-CanEnd h owed d e ended = one_answer _ h owed d e λ h' came. all_done d h'

-- From every state that is reached, whatever came in until then, the receiver and `configureRx` can go
-- on to a state in which all commands were sent and answered: it never waits for what cannot come.
pub configure_rx-CanEnd : (c : Config) (l : Link) → Reach c l → CanEnd l
configure_rx-CanEnd c l reach =
    let v = Reach-Inv c reach in Phase-CanEnd l.handlers l.owed l.descriptors v.counted v.phase
