-- ===== src/App/Drain/Tests.antt =====
-- A shutdown while one request is in flight.
use d_api.Base.{◌≡◌, refl, false}
use d_api.App.Drain.{RequestDrain, Reach, new_request_drain, enter, begin, leave_times, begin-done}

abbrev busy : RequestDrain
busy = (enter new_request_drain).0

busy-Reach : Reach 1 busy
unfolding enter new_request_drain
busy-Reach = Reach.enters 0 new_request_drain Reach.starts refl

begin-done_example : ((enter (begin busy)).1 ≡ false) × ((leave_times 1 (begin busy)).done ≡ 1)
begin-done_example = begin-done 1 busy busy-Reach
