-- ===== src/Program/Process.antt =====
-- How the processes of cmd/broadcast-server/main.go and cmd/broadcast-stats/main.go end: the goroutines
-- that wait for a signal and for the channel Quit, and those of RunClient.
pub mod Signal
use broadcast.Common.{Bytes, Bool, true, false, Result, ok, err, panic, if◌then◌else◌}
use broadcast.Server.Life.{Life, close, end_client}

pub data Process : Type 0 where
  running : Life → Process
  terminated crashed : Process

-- A call on a goroutine that returns no error: a panic of it, which nothing recovers from, ends the
-- process.
unfoldable pub after_close : Result Life → Process
after_close (ok life) = running life
after_close (err e) = crashed
after_close panic = crashed

-- <-sc; app.Close()
unfoldable pub interrupt : Life → Process
unfolding after_close close
interrupt life = after_close (close life)

-- <-app.Quit; pprof.StopCPUProfile(); os.Exit(0), which goes on when Quit is closed.
unfoldable pub on_quit : Life → Process
on_quit life = if life.quit_open then running life else terminated

-- The RunClient of the client at the address ends: `client.Close()` stands in its deferred function behind
-- recover.
unfoldable pub end_run : Bytes → Life → Process
unfolding after_close end_client
end_run id life = after_close (end_client id life)
