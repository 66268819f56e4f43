-- ===== src/Pipe/Tests.antt =====
-- Runs of a pipe.
use os_workbench.Base.{
  ℕ, ◌-◌, ◌≡◌, refl, arith, true, ◌||◌, List, [], ◌∷◌, ◌++◌, ◌==◌, ltb, if◌then◌else◌, take, drop,
  length, replicate, set,
}
use os_workbench.Pipe.{Pipe, get_size, got, blocks, pipe_read, wrote, waits, pipe_write}
use os_workbench.Pipe.Drain.{IsValid, contents}
use os_workbench.Pipe.Queue.{pipe_read-take, pipe_write-append}

-- Three bytes, the last behind the turn of the ring.
abbrev turned : Pipe
turned = record {
  head = 254;
  tail = 1;
  is_open = true;
  mem = set (set (set (replicate 256 0) 254 7) 255 8) 0 9;
}

turned-IsValid : IsValid turned
turned-IsValid = record { room = refl; head_in = omega arith; tail_in = omega arith }

contents-turned : contents turned ≡ 7 ∷ 8 ∷ 9 ∷ []
unfolding get_size
contents-turned = refl

pipe_read-take_example :
    (q : Pipe) × (pipe_read 4 turned 3 ≡ (
      if get_size turned == 0
      then (if turned.is_open then blocks else got [] turned)
      else got (take 3 (contents turned)) q))
    × IsValid q
    × (contents q ≡ drop 3 (contents turned))
pipe_read-take_example = pipe_read-take turned 3 turned-IsValid

abbrev two : List ℕ
two = 5 ∷ 6 ∷ []

pipe_write-append_example :
    (q : Pipe) × (pipe_write 4 turned two ≡ (
      if (get_size turned == 0xff) || ltb (0xff - get_size turned) (length two)
      then waits q (drop (0xff - get_size turned) two)
      else wrote q))
    × IsValid q
    × (contents q ≡ contents turned ++ take (0xff - get_size turned) two)
pipe_write-append_example = pipe_write-append turned two turned-IsValid
