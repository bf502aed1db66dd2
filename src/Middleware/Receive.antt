-- ===== src/Middleware/Receive.antt =====
-- OwnReceive of app/middleware/oauth2.py: the first message of a channel, kept for all later calls.
use fastgeoapi.Base.{ℕ, zero, suc, ◌≡◌, refl, Option, none, some, List, [], ◌∷◌}

module _ {Message Channel : Type 0} (receive : Channel → Message × Channel) where
  -- `data` and the channel behind it
  pub record OwnReceive : Type 0 where
    pub data_of : Option Message
    pub channel : Channel

  from_channel : Message × Channel → Message × OwnReceive
  from_channel (message, channel) = (message, record { data_of = some message; channel = channel })

  kept : Option Message → OwnReceive → Message × OwnReceive
  unfolding from_channel
  kept none own = from_channel (receive own.channel)
  kept (some message) own = (message, own)

  -- OwnReceive.__call__
  unfoldable pub own_receive : OwnReceive → Message × OwnReceive
  unfolding kept
  own_receive own = kept own.data_of own

  -- OwnReceive.__init__
  unfoldable pub own : Channel → OwnReceive
  own channel = record { data_of = none; channel = channel }

  -- What a number of calls give.
  unfoldable pub receive_times : ℕ → OwnReceive → List Message × OwnReceive
  unfolding own_receive
  receive_times zero own = ([], own)
  receive_times (suc n) own =
      let (message, own') = own_receive own in
      let (messages, own'') = receive_times n own' in (message ∷ messages, own'')

  unfoldable pub copies : ℕ → Message → List Message
  copies zero message = []
  copies (suc n) message = message ∷ copies n message

  receive_times_kept :
      (n : ℕ) (message : Message) (channel : Channel)
      → receive_times n (record { data_of = some message; channel = channel })
        ≡ (copies n message, record { data_of = some message; channel = channel })
  unfolding receive_times copies
  receive_times_kept zero message channel = refl
  receive_times_kept (suc n) message channel = rw (receive_times_kept n message channel) refl

  -- However often it is called, the channel is read once, and each call gives what it gave.
  pub receive_times_once :
      (n : ℕ) (channel : Channel)
      → receive_times (suc n) (own channel) ≡ (
        copies (suc n) (receive channel).0,
        record { data_of = some (receive channel).0; channel = (receive channel).1 },
      )
  unfolding receive_times own copies
  receive_times_once n channel =
      rw (receive_times_kept n (receive channel).0 (receive channel).1) refl
