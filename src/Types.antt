-- ===== src/Types.antt =====
-- src/core/config/Types.hpp: the error codes.
use Prim.Native.String.{String}

pub data NodeErrorCode : Type 0 where
  success underrun end_of_stream file_io_error format_error internal_error initialization_failed
        critical not_supported :
      NodeErrorCode

pub data AppError : Type 0 where
  success config_error parse_error network_error file_system_error logic_error critical : AppError

unfoldable to_string : NodeErrorCode → String
to_string success = "Success"
to_string underrun = "Audio Underrun"
to_string file_io_error = "File IO Error"
to_string end_of_stream = "EndOfStream"
to_string format_error = "Json Format Error"
to_string critical = "Critical Error"
to_string internal_error = "InternalError"
to_string initialization_failed = "InitializationFailed"
to_string _ = "Unknown Error"
