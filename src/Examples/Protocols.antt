-- ===== src/Examples/Protocols.antt =====
-- The protocol of handles, and the outcomes of a preparing method, at concrete inputs.
use century_ring.Common.{none, false, [], ◌∷◌}
use century_ring.Common.Int.{pos}
use century_ring.Platform.Toy.{ToyRing, toy_crates, toy_platform, toy_os}
use century_ring.Handle.{HandleStore}
use century_ring.Handle.Protocol.{FileLikeHandleLaws, IsThere, fd_handle, fd_handle_promises}
use century_ring.Client.State.{World, object}
use century_ring.Client.Session.{new_world}
use century_ring.Client.Methods.{Method, prep_read}
use century_ring.Examples.Memory.{fresh_ring}

abbrev one_handle : HandleStore
one_handle = record { handles = record { fd = pos 7; close_called = false } ∷ []; close_calls = [] }

fd_handle_promises_example :
    FileLikeHandleLaws IsThere (λ s. s.close_calls) (fd_handle ⦃o = toy_os⦄)
fd_handle_promises_example = fd_handle_promises ⦃o = toy_os⦄

abbrev start : World ToyRing
start = new_world fresh_ring one_handle

-- a read of four bytes from the handle
abbrev read_handle : Method
read_handle = prep_read (object 0) (pos 4) (pos 0) none
