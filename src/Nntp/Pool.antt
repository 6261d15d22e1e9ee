-- ===== src/Nntp/Pool.antt =====
-- ol1n-vault/internal/nntp/client.go: the connections that `acquire` and `release` share. The channel
-- `idle` is its buffer, oldest first; the channel `sema` is the number of tokens in it. What the
-- network does (a dial, a command) is an event.
pub mod System
pub mod Safety
pub mod Starvation
use ol1n_super_app.Base.{
  ℕ, suc, ◌+◌, ◌-◌, ◌*◌, ◌^◌, ◌≡◌, refl, Bool, true, false, not, ◌&&◌, ◌||◌, Option, none, some,
  List, [], ◌∷◌, ◌++◌, ltb, leb, ◌==◌, if◌then◌else◌, length,
}
use ol1n_super_app.Base.Ints.{ℤ, pos, is_positive, pos_part}

-- `conn`: what the pool reads of it.
pub record Conn : Type 0 where
  pub dead : Bool

abbrev pub is_alive : Conn → Bool
is_alive c = not c.dead

pub record Pool : Type 0 where
  pub connections : ℕ  -- cfg.Connections, the capacity of both channels
  pub idle : List Conn
  pub sema : ℕ

-- `NewClient`
unfoldable pub new_client : ℤ → Pool
new_client connections = record {
  connections = if is_positive connections then pos_part connections else 4;
  idle = [];
  sema = 0;
}

-- Where a goroutine stands in `PostArticle` or `FetchBody`.
pub data Caller : Type 0 where
  outside : Caller  -- in no call
  waiting : Caller  -- at the second `select` of `acquire`
  dialing : Caller  -- in `dial`, with a token
  using : Conn → Caller

-- `<-c.sema`; `none` is that it blocks.
unfoldable pub give_back : Pool → Caller → Option (Pool × Caller)
give_back p l = if p.sema == 0 then none else some (record p { sema = p.sema - 1 }, l)

-- The first `select` of `acquire`. A dead connection is closed.
take_idle : Pool → List Conn → Option (Pool × Caller)
take_idle p [] = some (p, waiting)
take_idle p (c ∷ rest) =
    if is_alive c
    then some (record p { idle = rest }, using c)
    else give_back (record p { idle = rest }) waiting

unfoldable pub acquire : Pool → Option (Pool × Caller)
unfolding take_idle give_back
acquire p = take_idle p p.idle

-- `case c.sema <- struct{}{}` of the second `select`
unfoldable pub enter : Pool → Option (Pool × Caller)
enter p = if ltb p.sema p.connections then some (record p { sema = p.sema + 1 }, dialing) else none

unfoldable pub release : Pool → Conn → Bool → Option (Pool × Caller)
unfolding give_back
release p c keep =
    if not keep || not (is_alive c)
    then give_back p outside
    else if ltb (length p.idle) p.connections
    then some (record p { idle = p.idle ++ (c ∷ []) }, outside)
    else give_back p outside

pub data Event : Type 0 where
  call : Event  -- `acquire` is called
  slot : Event  -- the second `select` sends to `sema`
  cancelled : Event  -- the second `select` reads `ctx.Done()`
  dialed : Event
  dial_failed : Event
  command : Bool → Event  -- a command ends; the flag is `dead`
  returns : Bool → Event  -- the deferred `release`; the flag is `keep`

-- One step of one goroutine; `none` is that it cannot be taken.
unfoldable pub step : Event → Pool → Caller → Option (Pool × Caller)
unfolding acquire enter release
step call p outside = acquire p
step slot p waiting = enter p
step cancelled p waiting = some (p, outside)
step dialed p dialing = some (p, using (record { dead = false }))
step dial_failed p dialing = give_back p outside
step (command dead) p (using c) = some (p, using (record { dead = c.dead || dead }))
step (returns keep) p (using c) = release p c keep
step _ p l = none
