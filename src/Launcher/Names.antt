-- ===== src/Launcher/Names.antt =====
-- server/src/launcher.rs: the constants, the I/O errors and the fields of `SparkLauncher`.
use spark_plug.Common.{ℕ, String, List, string_eq, nat_eq}
use spark_plug.Config.{SparkVersion}

-- `io::Error`
pub data ErrorKind : Type 0 where
  not_found invalid_input permission_denied other : ErrorKind

pub record IoError : Type 0 where
  pub kind : ErrorKind
  pub message : String

abbrev pub io_error : ErrorKind → String → IoError
io_error k m = record { kind = k; message = m }

abbrev pub app_name_config : String
app_name_config = "spark.app.name"

abbrev pub token_config : String
token_config = "spark.connect.authenticate.token"

abbrev pub callback_config : String
callback_config = "spark.plug.callback"

abbrev pub timeout_config : String
timeout_config = "spark.plug.idle.timeout"

abbrev pub listener_config : String
listener_config = "spark.extraListeners"

abbrev pub interceptor_config : String
interceptor_config = "spark.connect.grpc.interceptor.classes"

abbrev pub grpc_port_config : String
grpc_port_config = "spark.connect.grpc.binding.port"

abbrev pub archives_config : String
archives_config = "spark.archives"

abbrev pub python_config : String
python_config = "spark.sql.execution.pyspark.python"

abbrev pub listener_class : String
listener_class = "org.apache.spark.sql.sparkplug.SparkPlugListener"

abbrev pub interceptor_class : String
interceptor_class = "org.apache.spark.sql.sparkplug.SparkPlugInterceptor"

abbrev pub server_class : String
server_class = "org.apache.spark.sql.sparkplug.SparkPlugServer"

-- The fields of `SparkLauncher` that its methods read; the temporary file is only kept alive.
pub record SparkLauncher : Type 0 where
  pub versions : List SparkVersion
  pub callback_addr : String
  pub launch_timeout : ℕ
  pub session_timeout : ℕ
  pub plugin_path : String
