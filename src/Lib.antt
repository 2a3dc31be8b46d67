-- ===== src/Lib.antt =====
-- The feeders and providers of kuksa.val.feeders that are written in Python. In the CAN feeder
-- (dbc2val) frames of a CAN bus become VSS datapoints of a KUKSA server, and target values of VSS
-- signals become CAN frames; the DDS provider (dds2val), the GPS feeder (gps2val), csv_provider and
-- replay feed the server from other sources.
--
-- The parts and their files. A reader (Reader, for dbc2val/dbcfeederlib/canreader.py, dbcreader.py
-- and j1939reader.py; Reader/Player for canplayer.py, which plays a log of frames) decodes frames
-- and puts observations into a queue. The feeder (Feeder, for the class Feeder of
-- dbc2val/dbcfeeder.py) takes them from the queue, transforms them and sends them to the client
-- (Feeder/Receive, for _run_receiver), and in the other direction answers an update with frames
-- (Feeder/Transmit, for _vss_update and the subscription that calls it). Both use one mapper
-- (Mapper, for the class Mapper of dbc2val/dbcfeederlib/dbc2vssmapper.py; Mapper/Verify and
-- Mapper/Build for its construction from the mapping definitions), which holds mapping objects
-- (Mapping, for the class VSSMapping there) and the message database (Dbc, for
-- dbc2val/dbcfeederlib/dbcparser.py; Dbc/Files for the files it reads). The bridge from an ELM
-- adapter is Elm, for dbc2val/dbcfeederlib/elm2canbridge.py: Elm/Bridge is the constructor,
-- Elm/Dialogue _init_elm, Elm.antt and Elm/Framing the serial reader, Elm/Line the parser. Python
-- holds what these use of the language, Prelude the helpers, Examples concrete instances. Settings
-- is main of dbc2val/dbcfeeder.py, which gathers what the feeder is started with and creates the
-- client, and Client is the client wrappers, for clientwrapper.py, serverclientwrapper.py and
-- databrokerclientwrapper.py in dbc2val/dbcfeederlib.
--
-- Dds is the DDS provider dds2val: Dds/Mapper is ddsproviderlib/vss2ddsmapper.py there,
-- Dds/Provider the class Provider of ddsproviderlib/databroker.py with register_datapoints of
-- helper.py, and Dds/Listener and Dds/Session are the classes DdsListener and Ddsprovider of
-- helper.py. Dds/Kml is the publisher of kml/dds_kmlreplay.py.
--
-- Recording is csv_provider: Recording/Recorder is recorder.py, Recording/Provider is provider.py,
-- and Recording/Csv is what both use of Python's csv module, by the characters of the file. Gps is
-- gps2val/gpsd_feeder.py: the client that counts its messages, and the loop over the reports.
-- Replay is the loop of replay/_replay.py. LogLevels is parse_env_log of dbc2val/dbcfeeder.py, of
-- which gps2val/gpsd_feeder.py has a copy.
--
-- How the code is rendered. A function has the name of the method without its leading underscore.
-- An object is a record; a method that changes it returns it; a method that may raise returns a
-- Result beside it (Python/Run). Mapping objects are shared by three dictionaries, so the mapper
-- keeps them in a list and the dictionaries hold indices. Numbers are natural numbers or integers
-- without a bound, as Python's; a float is a decimal fraction, except that the times of dbc2val
-- are floats as multiples of 2 ^ -22 s, as they are from 2004 to 2038, and the product of their
-- difference by 1000.0 is rounded as a float is (Python/Float); 0 stands for the initial 0.0. The
-- times of the recorder and the replay are whole microseconds. Sets are lists in order of
-- insertion, one of the orders in which Python may visit them. A loop over threads is a list of
-- rounds or events: what another thread does comes between two iterations, not inside one. Every
-- loop runs over the list of what it meets, without fuel; only the passes of the CSV provider's
-- infinite loop are a number, the unit of a float is found by at most 64 doublings, enough for
-- products below 2 ^ 117, and the digits of a number are counted with as much fuel as the number,
-- which has no more digits than that. In the dialogue with the adapter the list is what the
-- adapter sends, and a loop that would read on after it is an outcome of its own.
--
-- Parameters. The evaluation of a formula (py_expression_eval), the lookup of a message and its
-- decoding and encoding (cantools) are arguments or fields of the model, `none` where they raise.
-- The answers of the client and of the KUKSA client library are given to each step. Masked states
-- how cantools looks up a frame ID under a mask. Loading a file and adding one to a database are
-- arguments too. A DDS sample is a list of attributes, the evaluation of the name of a data class
-- is an argument, and so is the rounding of a fraction to a float in the arithmetic of a DDS
-- transform. float() and the text of a float are arguments of the recording, and so are str and
-- json.loads of the GPS feeder, where an answer of the client thread is given for each signal of a
-- report, and strptime of the replay.
--
-- Not modelled: logging as such, the parsing of configuration files and of the command line,
-- threads and the serial port as such, the stream of a subscription, whose updates are events, the
-- connections of the recorder, the provider, the replay and the GPS feeder, the parsing of a KML
-- file, and the C++ code of someip2val.
pub mod Prelude
pub mod Python
pub mod Dbc
pub mod Mapping
pub mod Mapper
pub mod Reader
pub mod Feeder
pub mod Gps
pub mod Elm
pub mod LogLevels
pub mod Settings
pub mod Client
pub mod Recording
pub mod Replay
pub mod Dds
pub mod Examples
