-- ===== src/Session/LabNetworks.antt =====
-- handler/websocket.go: the lab networks of a session at every point it can reach.
use modigo_runner.Base.{
  ◌≡◌, refl, ◌∙◌, ap, subst, sym, true, false, List, [], some, Text, All, arith,
}
use modigo_runner.Docker.{DockerClient}
use modigo_runner.Docker.Calls.{networks}
use modigo_runner.Lab.{LabManager}
use modigo_runner.Session.{acquire_slot, World, disconnect}
use modigo_runner.Session.Run.{take_user_slot, dec_user, Goroutine}
use modigo_runner.Session.Threads.{
  System, Pending, idle, awaiting, creating, begins, enters, gives_up, creates, Step, receives,
  advances, prints, kills, reaps, disconnects, Reach, start, later, expires, calls, shares,
}
use modigo_runner.Session.Networks.{
  both_trans, take_user_slot-SameLab, next_generation-SameLab, run_created-SameLab, network_of,
  SameLab, advance-SameLab, bridge-SameLab, kill-SameLab, reap_shell-SameLab,
}
use modigo_runner.Session.LeftNets.{
  LeftNets, others-LeftNets, expired-LeftNets, foreign-LeftNets, SameLab-Networked,
  disconnect-Networked, receive-Networked, disconnect-no_lab,
}

module _ (Nets : Text → Type 0) (d : DockerClient) (lm : LabManager) (Base : Text → Type 0) where
  -- The networks left over are those of others and of the session's lab, and there is no lab after the
  -- end of the connection.
  pub record NetsKept (s : System) : Type 0 where
    pub left : LeftNets Nets (network_of s.world.st.lab) (networks s.world.trace)
    pub closed : s.is_open ≡ false → network_of s.world.st.lab ≡ []

  SameLab-NetsKept :
      (s : System) (w : World) (gs : List Goroutine) (p : Pending)
      → SameLab s.world w
      → NetsKept s
      → NetsKept (record s { world = w; goroutines = gs; pending = p })
  SameLab-NetsKept s w gs p same n = record {
    left = SameLab-Networked Nets s.world w same n.left;
    closed = λ shut. same.1 ∙ n.closed shut;
  }

  Step-NetsKept : (s t : System) → NetsKept s → Step d (some lm) Base Nets s t → NetsKept t
  unfolding acquire_slot dec_user
  Step-NetsKept s _ n (receives a m is_open rest fresh targets new) = record {
    left = receive-Networked Nets lm d a m s.world n.left (λ id. new id refl);
    closed = λ shut. absurd (ground (arith, is_open, shut));
  }
  Step-NetsKept s _ n (disconnects is_open rest) = record {
    left =
        subst (λ l. LeftNets Nets (network_of l) (networks (disconnect true s.world).trace))
          (sym (disconnect-no_lab s.world)) (disconnect-Networked Nets s.world n.left);
    closed = λ shut. ap network_of (disconnect-no_lab s.world);
  }
  Step-NetsKept s _ n (begins is_open rest admitted) =
      SameLab-NetsKept s _ s.goroutines awaiting
        (both_trans (take_user_slot-SameLab s.world)
          (next_generation-SameLab (take_user_slot s.world).1))
        n
  Step-NetsKept s _ n (enters is_open waits) =
      SameLab-NetsKept s _ s.goroutines creating (refl, refl) n
  Step-NetsKept s _ n (gives_up is_open waits) =
      SameLab-NetsKept s _ s.goroutines idle (refl, refl) n
  Step-NetsKept s _ n (creates a m code extra is_open waits fresh) =
      SameLab-NetsKept s _ _ idle (run_created-SameLab d a m true code extra s.world) n
  Step-NetsKept s _ n (advances a b g after e) =
      SameLab-NetsKept s _ _ s.pending (advance-SameLab a g s.world) n
  Step-NetsKept s _ n (prints gen text) =
      SameLab-NetsKept s _ s.goroutines s.pending (bridge-SameLab gen text s.world) n
  Step-NetsKept s _ n (kills gen) =
      SameLab-NetsKept s _ s.goroutines s.pending (kill-SameLab gen s.world) n
  Step-NetsKept s _ n (reaps gen now) =
      SameLab-NetsKept s _ s.goroutines s.pending (reap_shell-SameLab gen now s.world) n
  Step-NetsKept s _ n (expires lab) = record {
    left = expired-LeftNets Nets (network_of s.world.st.lab) lab s.world.trace n.left;
    closed = n.closed;
  }
  Step-NetsKept s _ n (calls e foreign) = record {
    left = foreign-LeftNets Nets Base (network_of s.world.st.lab) e s.world.trace foreign n.left;
    closed = n.closed;
  }
  Step-NetsKept s _ n (shares held users count runs) = record { left = n.left; closed = n.closed }

  Reach-NetsKept : (s t : System) → NetsKept s → Reach d (some lm) Base Nets s t → NetsKept t
  Reach-NetsKept s _ n start = n
  Reach-NetsKept s t n (later {s = u} reach step) =
      Step-NetsKept u t (Reach-NetsKept s u n reach) step

  -- Where labs are switched on: at every point that a session can reach, the lab networks that are left
  -- are those of others and at most the network of its current lab, and none but those of others once
  -- the connection has ended, also where timers of labs fire, and whichever calls of the daemon fail when
  -- labs are started (for a session that started in a state of which this holds).
  pub Reach-networks :
      (s t : System)
      → NetsKept s
      → Reach d (some lm) Base Nets s t
      → LeftNets Nets (network_of t.world.st.lab) (networks t.world.trace)
        × (t.is_open ≡ false → All Nets (networks t.world.trace))
  Reach-networks s t n reach =
      let end = Reach-NetsKept s t n reach in
      (
        end.left,
        λ shut.
            others-LeftNets Nets (networks t.world.trace) (
              subst (λ own. LeftNets Nets own (networks t.world.trace)) (end.closed shut) end.left),
      )
