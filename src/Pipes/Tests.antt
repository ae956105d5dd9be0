-- ===== src/Pipes/Tests.antt =====
-- A session with buffers of at most one byte. The front end sends three bytes and closes; the back end
-- gets them before it is kept.
use relay_x.Prelude.{
  ℕ, ◌≡◌, false, true, none, some, List, [], ◌∷◌, codes, length, length-replicate, replicate,
}
use relay_x.Buffer.{Bytes, buffer_size}
use relay_x.Pipes.{IoError, fe_to_be, PipeSession, new_pipe_session}
use relay_x.Pipes.Steps.{
  Step, source_read, reader_goes, writer_goes, destination_written, stop_called, stop_goes, steps,
}
use relay_x.Pipes.Lanes.{AllLanes}
use relay_x.Pipes.Carrying.{AllFresh, steps-new_pipe_session}

zeros : ℕ → Bytes
zeros k = replicate buffer_size 0

zeros_size : (k : ℕ) → length (zeros k) ≡ buffer_size
unfolding zeros
zeros_size k = length-replicate {A = ℕ} buffer_size 0

abbrev end_of_file : IoError
end_of_file = record { is_eof = true; is_closed = false; is_timeout = false; text = codes "EOF" }

abbrev script : List Step
script =
    source_read fe_to_be (1 ∷ 2 ∷ 3 ∷ []) (some end_of_file)
    ∷ reader_goes fe_to_be zeros
    ∷ writer_goes fe_to_be
    ∷ destination_written fe_to_be 3 none
    ∷ reader_goes fe_to_be zeros
    ∷ stop_goes
    ∷ stop_called
    ∷ []

script-AllFresh : AllFresh script
script-AllFresh = (tt, (zeros_size, (tt, (tt, (zeros_size, (tt, (tt, tt)))))))

steps-new_pipe_session_example :
    (s : PipeSession) × (steps script (new_pipe_session 1) ≡ some s) × AllLanes 1 s
steps-new_pipe_session_example = steps-new_pipe_session 1 script script-AllFresh
