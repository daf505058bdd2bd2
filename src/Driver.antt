-- ===== src/Driver.antt =====
-- lib/src/raw_results.c: register reads from the kernel, through the driver.
use maplesyrup.Base.{ℕ, Bool, true, false, Option, none, some, map}
use maplesyrup.Structs.{Status, success, failure, MsData, MsDataCpu, ms_error_noresult}
use maplesyrup.Env.{ret, M, pure, rest_of}

unfoldable pub no_result : MsDataCpu → MsDataCpu
no_result results = record results {
  cpu = map (λ (d : MsData). record d { status = ms_error_noresult }) results.cpu;
}

-- How the ioctl of the driver ends; an answer `none` leaves the data as it was.
unfoldable pub ioctl_ended : MsDataCpu → Option MsDataCpu → M (Status × Option MsDataCpu)
ioctl_ended results none = pure (failure, some results)
ioctl_ended results (some out) = pure (success, some out)

unfoldable pub send_ioctl : ℕ → MsDataCpu → M (Status × Option MsDataCpu)
unfolding ioctl_ended
send_ioctl cmd results e =
    ioctl_ended results (e.ioctl 0 cmd results) (record e { ioctl = rest_of e.ioctl })

-- `is_open` is whether ms_fd is not -1.
unfoldable pub ask_driver : (is_open : Bool) → ℕ → MsDataCpu → M (Status × Option MsDataCpu)
unfolding no_result send_ioctl
ask_driver true cmd results = send_ioctl cmd (no_result results)
ask_driver false cmd results = pure (failure, some results)

unfoldable pub driver_results : (cmd : ℕ) → Option MsDataCpu → M (Status × Option MsDataCpu)
unfolding ask_driver
driver_results cmd none e = ret (failure, none) e
driver_results cmd (some results) e = ask_driver e.device_open cmd results e
