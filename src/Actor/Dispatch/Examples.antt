-- ===== src/Actor/Dispatch/Examples.antt =====
-- The theorems on the messages of hActor/ActorComponent.go, for an actor with one message.
use happy.Base.{ℕ, ◌≡◌, refl, true, false, Option, none, some, List, [], ◌∷◌, arith}
use happy.Actor.Dispatch.{
  timeout, failed, MessageInfo, selecting, ActorComponent, reply, handle, dispatched, change, tells,
  sends, here, next,
}
use happy.Actor.Dispatch.Queueing.{IsQueue, Steps-IsQueue, IsStuck, times_out-IsStuck}

-- Every message is handled by two handlers, of which the second fails.
abbrev two : ℕ → List (Option ℕ)
two m = none ∷ some 7 ∷ []

abbrev waiting : MessageInfo ℕ
waiting = record {
  needs_reply = true;
  is_wait_call = false;
  is_done = false;
  err = none;
  result = none;
}

abbrev idle : ActorComponent ℕ
idle = record {
  active = true;
  closed = false;
  stage = selecting;
  sending = λ m. false;
  queue_receive = [];
  infos = λ m. waiting;
  accepted = [];
  handled = [];
  crashed = [];
}

-- The first handler's success is the reply.
handle-two :
    handle (two 3) waiting
    ≡ some (record {
      needs_reply = true;
      is_wait_call = false;
      is_done = true;
      err = some (failed 7);
      result = some none;
    })
unfolding handle reply
handle-two = refl

abbrev told : ActorComponent ℕ
told = record idle { sending = change idle.sending 3 true }

abbrev queued : ActorComponent ℕ
queued = record told {
  sending = change told.sending 3 false;
  queue_receive = 3 ∷ [];
  accepted = 3 ∷ [];
}

Steps-IsQueue_example : IsQueue two queued
Steps-IsQueue_example =
    Steps-IsQueue two {a = idle} refl refl refl refl
      (next (next here (tells idle 3 refl)) (sends told 3 refl refl (omega arith)))

abbrev late : ActorComponent ℕ
late = record queued {
  infos = λ m. record waiting { err = some timeout; result = some (some timeout) };
}

times_out-IsStuck_example :
    IsStuck two late (dispatched 3 [] (handle (two 3) (late.infos 3)) late) 3
times_out-IsStuck_example =
    times_out-IsStuck two late (dispatched 3 [] (handle (two 3) (late.infos 3)) late) 3 [] none
      (some 7 ∷ []) refl refl refl refl here
