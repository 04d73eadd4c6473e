-- ===== src/Format/Print/Endings.antt =====
-- print on each target of the library.
use wrutil.Common.{ℕ, List}
use wrutil.Format.{Text, Host}
use wrutil.Format.Arguments.{Value, print_values}
use wrutil.Format.Arguments.{set_array}
use wrutil.Format.Fields.Endings.{Finishes, with_result, with_exception, with_undefined, branches}
use wrutil.Format.Print.Termination.{Calm, print-Finishes}
use wrutil.Format.Targets.{
  StringState, string_target, BufferState, buffer_target, put_buffer, put_text_buffer,
  finish_buffer,
}
use wrutil.Format.Targets.Streams.{StreamState, io_stream_target, c_stream_target}

string_target-Calm : Calm string_target
string_target-Calm = record {
  put = λ c s. with_result;
  put_text = λ t s. with_result;
  finish = λ s. with_result;
}

io_stream_target-Calm : Calm io_stream_target
io_stream_target-Calm = record {
  put = λ c s. with_result;
  put_text = λ t s. with_result;
  finish = λ s. with_result;
}

c_stream_target-Calm : (fwrite : Text → Text → ℕ) → Calm (c_stream_target fwrite)
c_stream_target-Calm fwrite = record {
  put = λ c s. with_result;
  put_text = λ t s. with_result;
  finish = λ s. with_result;
}

buffer_target-Calm : Calm buffer_target
unfolding buffer_target put_buffer put_text_buffer finish_buffer
buffer_target-Calm = record {
  put = λ c s. branches _ _ _ with_result with_result;
  put_text = λ t s. branches _ _ _ with_exception with_result;
  finish = λ s. branches _ _ _ with_result with_undefined;
}

-- On a string, a buffer, a stream of C++ and a stream of C, whatever fwrite returns, print does
-- not run out of fuel for any text, values and state: as many rounds as the text has characters,
-- and one more, are enough for its loop, and as many as a specification has characters for the
-- loops that read it, to get to a result, an error or an exception, or to undefined behaviour such
-- as a read behind the text.
pub print_values-Finishes :
    (host : Host) (values : List Value) (fmt : Text) (fwrite : Text → Text → ℕ) (s : StringState)
    (b : BufferState) (o : StreamState)
    → Finishes (print_values string_target host values fmt s)
      × Finishes (print_values buffer_target host values fmt b)
      × Finishes (print_values io_stream_target host values fmt o)
      × Finishes (print_values (c_stream_target fwrite) host values fmt o)
unfolding print_values
print_values-Finishes host values fmt fwrite s b o = (
  print-Finishes string_target host string_target-Calm (set_array values) fmt s,
  print-Finishes buffer_target host buffer_target-Calm (set_array values) fmt b,
  print-Finishes io_stream_target host io_stream_target-Calm (set_array values) fmt o,
  print-Finishes (c_stream_target fwrite) host (c_stream_target-Calm fwrite) (set_array values) fmt
      o,
)
