-- ===== src/Algorithm.antt =====
-- What include/wrutil/string_view.h and src/Option.cxx use of the C++ library's algorithms: each
-- takes a range as a list and answers with an offset, the length of the range for its end.
mod Defs
mod Laws
unfoldable pub use Defs.*
pub use Laws.*
