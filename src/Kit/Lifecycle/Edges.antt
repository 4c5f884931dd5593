-- ===== src/Kit/Lifecycle/Edges.antt =====
-- The graph of the lifecycle: where each kind of transition starts, passes and ends.
use bigfleet_providers.Prelude.{true, ◌≡◌, arith}
use bigfleet_providers.Kit.Lifecycle.{State, Kind, transitional, stable, can_start}

-- The state that a kind starts from.
abbrev pub origin : Kind → State
origin Kind.create = State.speculative
origin Kind.configure = State.idle
origin Kind.drain = State.configured
origin Kind.delete = State.idle

-- The documented edges of the lifecycle, by kind of transition: where one begins, where it ends, and
-- where it fails.
pub data Begins : Kind → State → State → Type 0 where
  create : Begins Kind.create State.speculative State.creating
  configure : Begins Kind.configure State.idle State.configuring
  drain : Begins Kind.drain State.configured State.draining
  delete : Begins Kind.delete State.idle State.deleting

pub data Ends : Kind → State → State → Type 0 where
  create : Ends Kind.create State.creating State.idle
  configure : Ends Kind.configure State.configuring State.configured
  drain : Ends Kind.drain State.draining State.idle
  delete : Ends Kind.delete State.deleting State.speculative

pub data Fails : Kind → State → State → Type 0 where
  create : Fails Kind.create State.creating State.failed
  configure : Fails Kind.configure State.configuring State.failed
  drain : Fails Kind.drain State.draining State.failed
  delete : Fails Kind.delete State.deleting State.failed

pub begins : (k : Kind) (s : State) → s ≡ origin k → Begins k s (transitional k)
unfolding transitional
begins Kind.create s e = rw e Begins.create
begins Kind.configure s e = rw e Begins.configure
begins Kind.drain s e = rw e Begins.drain
begins Kind.delete s e = rw e Begins.delete

pub ends : (k : Kind) (s : State) → s ≡ transitional k → Ends k s (stable k)
unfolding transitional stable
ends Kind.create s e = rw e Ends.create
ends Kind.configure s e = rw e Ends.configure
ends Kind.drain s e = rw e Ends.drain
ends Kind.delete s e = rw e Ends.delete

pub fails : (k : Kind) (s : State) → s ≡ transitional k → Fails k s State.failed
unfolding transitional
fails Kind.create s e = rw e Fails.create
fails Kind.configure s e = rw e Fails.configure
fails Kind.drain s e = rw e Fails.drain
fails Kind.delete s e = rw e Fails.delete

-- A kind starts from its origin only.
pub can_start-origin : (s : State) (k : Kind) → can_start s k ≡ true → s ≡ origin k
unfolding can_start
can_start-origin s k h = ground arith
