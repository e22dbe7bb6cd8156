-- ===== src/Rpc/Examples.antt =====
-- Tests of hRpc/client.go and the theorems on a short exchange.
use happy.Base.{ℕ, ◌≡◌, refl, true, none, some, [], ◌∷◌, contains, nat_eq}
use happy.Base.Maps.{lookup, insert, delete}
use happy.Rpc.{
  Client, new_client, register, settle, written, receive, fail_all, terminate, sends, writes,
  receives, stops, Steps, start, snoc,
}
use happy.Rpc.Complete.{times, Steps-complete}

-- An error is a number: 1 says that the connection is shut down, 2 that it ended early.
abbrev sent : Client ℕ
sent = register 70 1 new_client

-- The client after a first call, which is answered while it is written, a second, and the end of the connection.
abbrev answered : Client ℕ
answered = written 0 none (receive 0 none sent)

abbrev waiting : Client ℕ
waiting = written 1 none (register 80 1 answered)

abbrev stopped : Client ℕ
stopped = terminate (some 2) waiting

stopped_completed : stopped.completed ≡ (80, some 2) ∷ (70, none) ∷ []
unfolding terminate fail_all written receive settle register lookup insert delete
stopped_completed = refl

reached : Steps new_client stopped
unfolding terminate written receive settle register lookup insert delete
reached =
    snoc
      (snoc
        (snoc
          (snoc (snoc (snoc start (sends 70 1 refl refl)) (receives 0 none refl))
            (writes 0 none refl))
          (sends 80 1 refl refl))
        (writes 1 none refl))
      (stops (some 2) refl refl)

stopped_down : stopped.shutdown ≡ true
unfolding terminate
stopped_down = refl

stopped_issued : contains stopped.issued 80 ≡ true
unfolding terminate written register receive
stopped_issued = refl

Steps-complete_example : times stopped 80 ≡ 1
Steps-complete_example = Steps-complete stopped 80 reached stopped_down stopped_issued
