-- ===== src/PythonClient/Agreement.antt =====
-- The JSON of the clients and of the server: what one side writes is what the other reads.
use spark_plug.Common.{String, ◌≡◌, refl, Option, none, some, List, ok, arith}
use spark_plug.Map.{Map, get, insert}
use spark_plug.Json.{text, number, optional}
use spark_plug.Routes.Api.{ApplicationInfo}
use spark_plug.Routes.Messages.{read_create, write_info}
use spark_plug.Client.{CreateApplication}
use spark_plug.Client.Messages.{write_create, read_application}
use spark_plug.PythonClient.{from_dict, create_params}

-- A request to create that arrives as it was asked: with the Python client's four arguments, or
-- with the version and the configs of the Rust client.
abbrev pub IsAsked :
    Option String
    → Option String
    → Option (Map String)
    → Option (List String)
    → CreateApplication
    → Type 0
IsAsked name version config python_packages c =
    (read_create (create_params name version config python_packages)
      ≡ ok (record {
        name = name;
        version = version;
        config = config;
        python_packages = python_packages;
      }))
    × (read_create (write_create c)
        ≡ ok (record {
          name = none;
          version = c.version;
          config = some c.config;
          python_packages = none;
        }))

-- A description that arrives at both clients.
abbrev pub IsDescribed : ApplicationInfo → Type 0
IsDescribed i =
    (from_dict (write_info i)
      ≡ ok (record {
        id = number i.id;
        token = text i.token;
        name = optional text i.name;
        log_url = optional text i.log_url;
      }))
    × (read_application (write_info i)
        ≡ ok (record { id = i.id; token = i.token; active = i.active; log_url = i.log_url }))

IsAsked-all :
    (name version : Option String) (config : Option (Map String))
    (python_packages : Option (List String)) (c : CreateApplication)
    → IsAsked name version config python_packages c
unfolding read_create create_params write_create get insert
IsAsked-all name version config python_packages c = (ground arith, ground arith)

IsDescribed-all : (i : ApplicationInfo) → IsDescribed i
unfolding from_dict write_info read_application get
IsDescribed-all i = (refl, ground arith)

-- The server reads the request to create of either client as what was asked, and either client
-- reads the application that the server describes, with its token.
pub messages_read :
    (name version : Option String) (config : Option (Map String))
    (python_packages : Option (List String)) (c : CreateApplication) (i : ApplicationInfo)
    → IsAsked name version config python_packages c × IsDescribed i
messages_read name version config python_packages c i =
    (IsAsked-all name version config python_packages c, IsDescribed-all i)
