-- ===== src/LogStream/Tests.antt =====
-- A server that takes every request, and reports the bytes that it has taken.
use buildbox_common.Prelude.{ℕ, ◌+◌, ◌≡◌, refl, true, false, List, [], ◌∷◌, none, codes, length}
use buildbox_common.Retrier.{Status, ok_code, is_ok}
use buildbox_common.LogStream.{
  WriteRequest, ByteStream, LogStreamWriter, make_writer, Stream, returned, write_lambda, write,
  commit,
}
use buildbox_common.LogStream.Commit.{commit_ok}
use buildbox_common.LogStream.Offsets.{
  Call, writes, commits, data_request, run_calls, acknowledged_bytes, write_data_lem,
  run_calls_offset,
}

abbrev fine : Status
fine = record { error_code = ok_code; error_details = [] }

abbrev server : ByteStream
server = record {
  World = ℕ;
  query_write_status = λ name taken. (fine, taken);
  open_writer = λ taken. taken;
  write_request = λ request taken. (true, taken + length request.data_bytes);
  writes_done = λ taken. taken;
  finish = λ taken. (fine, taken, taken);
  retry_info = λ details. none;
}

abbrev fresh : LogStreamWriter
fresh = make_writer (codes "log") 2 100

abbrev ready : LogStreamWriter
ready = record fresh { resource_ready = true }

abbrev closed : Stream server
closed = record { writer_open = false; committed_size = 0; world = 0 }

abbrev opened : Stream server
opened = record { writer_open = true; committed_size = 5; world = 5 }

abbrev written : LogStreamWriter
written = record ready { write_offset = 5 }

abbrev committed : LogStreamWriter
committed = record written { write_committed = true }

abbrev calls : List (Call server)
calls = writes (codes "hello") ∷ commits ∷ writes (codes "again") ∷ []

run : run_calls server calls fresh closed ≡ (committed, opened)
unfolding run_calls buildbox_common.LogStream.Offsets.call write commit make_writer
    buildbox_common.Retrier.issue_request
run = refl

commit_run : commit server written opened ≡ returned (true, committed, opened)
unfolding commit make_writer buildbox_common.Retrier.issue_request
commit_run = refl

commit_ok_example :
    (opened.committed_size ≡ written.write_offset)
    × (committed.write_committed ≡ true)
    × (committed.write_offset ≡ written.write_offset)
commit_ok_example = commit_ok server written committed opened opened commit_run

run_calls_offset_example :
    (run_calls server calls fresh closed).0.write_offset
    ≡ fresh.write_offset + acknowledged_bytes server calls fresh closed
run_calls_offset_example = run_calls_offset server calls fresh closed
