-- ===== src/Client.antt =====
-- `Client` of python_binding/lsm/_client.py: every method checks its arguments, makes a remote call of
-- its own name with its own parameters, and checks the type of what comes back.
pub mod Expected
pub mod Guards
pub mod Connection
pub mod Block
pub mod Raid
pub mod Groups
pub mod Files
pub mod Requests
pub mod Conforms
pub mod Disks
pub mod Listed
pub mod Listings
mod Tests
use libstoragemgmt.Base.{ℕ, List, String}
use libstoragemgmt.Text.{codes}
use libstoragemgmt.Data.Value
use libstoragemgmt.Data.Value.{Value, Fields}
use libstoragemgmt.Ipc.Raised.{Outcome, ok, err}
use libstoragemgmt.Ipc.Transport.{Socket}
use libstoragemgmt.Ipc.Messages.{Json, rpc}
use libstoragemgmt.Client.Expected.{Expecteds, return_requires}
use libstoragemgmt.Client.Guards.{Call}

module _ {S : Type 0} (json : Json) (sock : Socket S) (close_transport : S → S) where
  abbrev checked : Expecteds → Outcome Value × S → Outcome Value × S
  checked types (ok v, s) = (return_requires types v, s)
  checked types (err x, s) = (err x, s)

  -- The body of a method: an exception of its checks, or `self._tp.rpc(method, _del_self(locals()))` under the
  -- decorator `_return_requires`.
  unfoldable pub perform : Outcome Call → S → Outcome Value × S
  perform (err x) s = (err x, s)
  perform (ok c) s = checked c.returns (rpc json sock (codes c.method) (Value.dict c.args) s)

  abbrev closed_after : Outcome Value × S → Outcome Value × S
  closed_after (err x, s) = (err x, s)
  closed_after (ok v, s) = (ok Value.null, close_transport s)

  -- `close` and `plugin_unregister`
  unfoldable pub close : Call → S → Outcome Value × S
  close c s = closed_after (rpc json sock (codes c.method) (Value.dict c.args) s)
